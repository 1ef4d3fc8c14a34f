-- ===== src/Lib.antt =====
-- Discovery Server runs Fast DDS discovery servers and clients from an XML file, records what each
-- participant has discovered of the others, takes snapshots of these records, and validates them.
--
-- The parts of the program, and the files about them:
--   * Items, include/DiscoveryItem.h: what one participant knows of another (ParticipantDiscoveryItem)
--     and of its endpoints. Item has the records, Item/EndPoint the interface through which the
--     templates of the database reach the set of writers or of readers, Item/Equality the operators.
--   * std::set and std::map: OrderedSet, a list in the order of its keys. An iterator is the key of
--     its element. Files that use sets take their laws from OrderedSet/Order and OrderedSet/Lookup.
--   * Snapshots, src/DiscoveryItem.cpp: Snapshot has the databases of all participants, one for each
--     participant (the spokesman) that reports, with the look-ups that enter one; Snapshot/Merge is
--     operator +=. Snapshot/Writing is to_xml and Snapshot/Reading is from_xml, over the names of Ids,
--     include/IDs.h, and the times of Clock. Snapshot/Reloaded says what is left of a snapshot that is
--     written and read; EndpointTrip, ParticipantTrip, DatabaseTrip, LoopTrip, RoundTrip, Rounding and
--     Harmless have the theorems.
--   * Xml has what the program uses of tinyxml2 and of the texts of GUIDs, as two records: operations
--     with the laws that their documentation states. All that reads or writes XML is over such records.
--   * The database, src/DiscoveryItem.cpp: Database has the members of DiscoveryItemDatabase that
--     change its image (AddParticipant, both RemoveParticipant, AddEndPoint, RemoveEndPoint),
--     Database/Members the public members behind the templates, the liveliness update, the search and
--     the counters. The other children of Database have the invariant (Invariant, WellFormed), what an
--     operation changes (Participants, Removal, Endpoints, Entering, EndpointRemoval, Counts), when an
--     assertion fails (Assertions), and sequences of operations of any threads as a step relation (Steps).
--   * The comparison, src/DiscoveryItem.cpp: Compare is operator == on databases with its iterators
--     over living participants. Its children compare it with a plain comparison of sets.
--   * The manager, src/DiscoveryServerManager.cpp and include/DiscoveryServerManager.h: Manager has its
--     state and the functions on snapshots, Manager/Maps the members that register and find what has
--     been created, Manager/Entities the topics of each participant, Manager/Callbacks the listener,
--     through which Fast DDS changes the database, Manager/Files saveSnapshots and loadSnapshots,
--     Manager/Termination onTerminate.
--     Manager/Completion, Managed, Validation, Listener, Discovery, Registry, Reload and Merging have
--     the theorems.
--   * The events, include/LateJoiner.h and src/LateJoiner.cpp: Events has the classes derived from
--     LateJoinerData, in a store under their pointers, Events/Participants and Events/Endpoints the
--     creations and destructions, and Events/Run all operators () with the loop of runEvents. They act
--     on the manager, with its members of Manager/Created, and on Fast DDS, of which Dds has what they
--     use. Events/Linked, Orphans and Invariant have the theorems; Lives and TakenOut, and OrderedManager,
--     Tracked, TrackedEntities, TrackedEndpoints, TrackedParticipants and TrackedDestruction, have
--     their lemmas.
--   * The configuration, src/DiscoveryServerManager.cpp: Config has the state while it is loaded,
--     Config/Endpoints loadSubscriber and loadPublisher, Config/Participants loadSimple and what the
--     loaders of participants share, Config/Servers loadServer and MapServerInfo, Config/Clients
--     loadClient, Config/Schedules loadSnapshot and loadEnvironmentChange, and Config/Construction the
--     topic profiles and the constructor; Config/Order and LateServer have the theorems.
--   * The program, src/main.cpp: Main has main behind the option parser, with the destructor of
--     DiscoveryServerManager, and Main/Saved the theorem. What a file holds, and how std::sort and the
--     clock schedule the events, are arguments.
--
-- Conventions. A GUID is its rank in the order of GUID_t; its prefix, and the participant that a
-- reader belongs to, are parameters. A pointer is a number and the null pointer is `none`. A time
-- point is an integer. assert is an outcome (Outcome): a failed assertion ends the process, and a
-- parameter says whether the build leaves assertions out. A function that reads the clock has the
-- time as an argument. Functions bear the source's names in snake_case. Each
-- member that locks the mutex of the database is one step of Database/Steps. A callback is taken as
-- one step too, though it takes its locks one after the other.
--
-- Fuel. The loop of operator == has one more than the number of participants in both databases:
-- each round that goes on advances an iterator. The loop of takeSnapshot has one more than the number
-- of participants of the manager: each round passes at least the participant that it enters.
--
-- A call through a null pointer ends the process, as a failed assertion does. The events run in the
-- order that they are given in, each with what the clock shows then: std::sort leaves the order of
-- events of the same time open. The callbacks that Fast DDS makes while an event runs are left out.
--
-- Not modelled: logging and stream output; tinyxml2 itself, and what becomes of a document in a file;
-- Fast DDS itself, with the loading of its profiles; the waits of runEvents; the vendored
-- optionparser.h; the generated types under resources/xtypes.
mod Prelude
pub mod OrderedSet
pub mod Item
pub mod Outcome
pub mod Snapshot
pub mod Database
pub mod Compare
pub mod Main
pub mod Manager
pub mod Ids
pub mod Xml
pub mod Clock
pub mod Dds
pub mod Events
pub mod Config
mod Examples
