-- ===== src/Manager/Registry.antt =====
-- What the manager finds in its maps after it has entered or removed a participant,
-- src/DiscoveryServerManager.cpp.
use discovery_server.Prelude.{
  ◌≡◌, ap, subst, Bool, true, ◌||◌, none, some, [], ◌∷◌, arith, ◌==◌, if◌then◌else◌, is_none,
  Bool-cases, inl, inr, ℕ, suc,
}
use discovery_server.OrderedSet.{find, emplace, modify, erase}
use discovery_server.OrderedSet.Order.{IsSorted, Above}
use discovery_server.OrderedSet.Lookup.{find_below, find-erase}
use discovery_server.Outcome.{Outcome, done, aborted}
use discovery_server.Item.{Guid}
use discovery_server.Snapshot.Lookup.{database_at}
use discovery_server.Snapshot.{database_guid}
use discovery_server.Database.{remove_database}
use discovery_server.Manager.{Manager, Pointer, GuidMap, entry_guid}
use discovery_server.Manager.Maps.{
  assign, value_at, assign_new, add_server, add_client, add_simple, get_participant, without_prefix,
  take_out, remove_participant, first_of, then_write,
}

-- Every map of participants is a std::map: its keys are in order, each once.
pub record IsRegistry (m : Manager) : Type 0 where
  pub clients_sorted : IsSorted entry_guid m.clients
  pub servers_sorted : IsSorted entry_guid m.servers
  pub simples_sorted : IsSorted entry_guid m.simples
  pub writers_sorted : IsSorted entry_guid m.data_writers
  pub readers_sorted : IsSorted entry_guid m.data_readers
  pub state_sorted : IsSorted database_guid m.state.databases

pub value_at-assign :
    (k b id : Guid) (a : Pointer) (m : GuidMap Pointer)
    → Above entry_guid b m
    → value_at k (assign id a m) ≡ (if id == k then some a else value_at k m)
unfolding value_at assign find emplace modify
value_at-assign k b id a [] s = ground arith
value_at-assign k b id a (e ∷ es) s =
    ground (arith, value_at-assign k (suc e.0) id a es s.1, find_below entry_guid k (suc e.0) es)

done_or : {A : Type 0} → A → Outcome A → A
done_or a (done b) = b
done_or a aborted = a

pub assign_new-done :
    (ndebug : Bool) (id : Guid) (a : Pointer) (es : GuidMap Pointer) (f : GuidMap Pointer → Manager)
    {m' : Manager}
    → then_write (assign_new ndebug id a es) f ≡ done m'
    → f (assign id a es) ≡ m'
unfolding assign_new done_or
assign_new-done ndebug id a es f e = elim (Bool-cases (ndebug || is_none (find entry_guid id es))) [
  | inl h ↦ ap (done_or (f es)) (rw h at e)
  | inr h ↦ absurd (refuse (rw h at e))
]
  where
    refuse : {m' : Manager} → aborted ≡ done m' → ⊥
    refuse e = cc

pub value_at-erase :
    (k id : Guid) (es : GuidMap Pointer)
    → IsSorted entry_guid es
    → value_at k (erase entry_guid id es) ≡ (if id == k then none else value_at k es)
unfolding value_at
value_at-erase k id es s = ground (arith, find-erase entry_guid k id 0 es s)

value_at-without_prefix :
    {A : Type 0} (prefix : Guid → ℕ) (id k b : Guid) (es : GuidMap A)
    → Above entry_guid b es
    → value_at k (without_prefix prefix id es)
      ≡ (if prefix id == prefix k then none else value_at k es)
unfolding value_at without_prefix find
value_at-without_prefix prefix id k b [] s = ground arith
value_at-without_prefix prefix id k b (e ∷ es) s = elim (Bool-cases (e.0 == k)) [
  | inl same ↦ ground (
    arith,
    value_at-without_prefix prefix id k (suc e.0) es s.1,
    ap prefix (eq_of_== e.0 k same),
    find_below entry_guid k (suc e.0) es,
  )
  | inr other ↦ ground (
    arith,
    value_at-without_prefix prefix id k (suc e.0) es s.1,
    find_below entry_guid k (suc e.0) es,
  )
]
  where
    eq_of_== : (a b : ℕ) → (a == b) ≡ true → a ≡ b
    eq_of_== a b h = ground arith

get_participant-add_client :
    (ndebug : Bool) (id k : Guid) (p : Pointer) (m : Manager) {m' : Manager}
    → IsRegistry m
    → find entry_guid id m.entity_map ≡ none
    → get_participant id m ≡ none
    → add_client ndebug id p m ≡ done m'
    → get_participant k m' ≡ (if id == k then some p else get_participant k m)
unfolding add_client get_participant
get_participant-add_client ndebug id k p m w fresh unknown e =
    subst (λ n. get_participant k n ≡ (if id == k then some p else get_participant k m))
      (assign_new-done ndebug id p m.clients (λ es. record m { clients = es }) e)
      (ground (arith, value_at-assign k 0 id p m.clients w.clients_sorted))

-- With its maps in GUID order, a server that is new to the manager, in its map of created entities too: after addServer, where
-- its assertion holds, getParticipant finds the server under its GUID and whatever it found
-- before under every other GUID.
pub get_participant-add_server :
    (ndebug : Bool) (id k : Guid) (p : Pointer) (m : Manager) {m' : Manager}
    → IsRegistry m
    → find entry_guid id m.entity_map ≡ none
    → get_participant id m ≡ none
    → add_server ndebug id p m ≡ done m'
    → get_participant k m' ≡ (if id == k then some p else get_participant k m)
unfolding add_server get_participant
get_participant-add_server ndebug id k p m w fresh unknown e =
    subst (λ n. get_participant k n ≡ (if id == k then some p else get_participant k m))
      (assign_new-done ndebug id p m.servers (λ es. record m { servers = es }) e)
      (ground (arith, value_at-assign k 0 id p m.servers w.servers_sorted))

get_participant-add_simple :
    (ndebug : Bool) (id k : Guid) (p : Pointer) (m : Manager) {m' : Manager}
    → IsRegistry m
    → find entry_guid id m.entity_map ≡ none
    → get_participant id m ≡ none
    → add_simple ndebug id p m ≡ done m'
    → get_participant k m' ≡ (if id == k then some p else get_participant k m)
unfolding add_simple get_participant
get_participant-add_simple ndebug id k p m w fresh unknown e =
    subst (λ n. get_participant k n ≡ (if id == k then some p else get_participant k m))
      (assign_new-done ndebug id p m.simples (λ es. record m { simples = es }) e)
      (ground (arith, value_at-assign k 0 id p m.simples w.simples_sorted))

-- removeParticipant, where the maps and the databases are in GUID order: the manager's database of the participant goes, and every data writer and
-- data reader whose GUID has the prefix of the participant's; the other endpoints stay. What it
-- returns is the participant found among the clients, or else the servers, or else the simples.
pub remove_participant_clears :
    (prefix : Guid → ℕ) (id k : Guid) (m : Manager)
    → IsRegistry m
    → (database_at k (remove_participant prefix id m).1.state
        ≡ (if id == k then none else database_at k m.state))
      × (value_at k (remove_participant prefix id m).1.data_writers
          ≡ (if prefix id == prefix k then none else value_at k m.data_writers))
      × (value_at k (remove_participant prefix id m).1.data_readers
          ≡ (if prefix id == prefix k then none else value_at k m.data_readers))
      × ((remove_participant prefix id m).0
          ≡ first_of
              (value_at id m.clients)
              (first_of (value_at id m.servers) (value_at id m.simples)))
unfolding remove_participant take_out remove_database
remove_participant_clears prefix id k m w = (
  ground (arith, find-erase database_guid k id 0 m.state.databases w.state_sorted),
  ground (arith, value_at-without_prefix prefix id k 0 m.data_writers w.writers_sorted),
  ground (arith, value_at-without_prefix prefix id k 0 m.data_readers w.readers_sorted),
  ground arith,
)
