-- ===== src/Snapshot/Lookup.antt =====
-- Which database is found after the members of Snapshot, src/DiscoveryItem.cpp.
use discovery_server.Prelude.{
  ◌≡◌, refl, Option, some, List, [], String, ◌==◌, arith, if◌then◌else◌, from_option, map_option,
  bind_option, All, Option-cases, inl, inr,
}
use discovery_server.OrderedSet.{find}
use discovery_server.OrderedSet.Order.{IsSorted, emplace-Above, modify-Above}
use discovery_server.OrderedSet.Lookup.{
  seek-find, find-emplace, find-modify, All-emplace, All-modify, All-find,
}
use discovery_server.Item.{Guid, ParticipantDiscoveryItem, participant_guid}
use discovery_server.Snapshot.{
  ParticipantDiscoveryDatabase, Snapshot, database_guid, new_database, access_snapshot, subscript,
  subscript_const, write_participants, participants_of,
}

abbrev pub database_at : Guid → Snapshot → Option ParticipantDiscoveryDatabase
database_at id s = find database_guid id s.databases

-- What the spokesman `s` knows of the participant `p`.
abbrev pub participant_at : Guid → Guid → Snapshot → Option ParticipantDiscoveryItem
participant_at s p image =
    bind_option (database_at s image) (λ db. find participant_guid p db.participants)

abbrev pub put_participants :
    (List ParticipantDiscoveryItem → List ParticipantDiscoveryItem)
    → ParticipantDiscoveryDatabase
    → ParticipantDiscoveryDatabase
put_participants f db = record db { participants = f db.participants }

pub subscript-access_snapshot :
    (id : Guid) (s : Snapshot) → subscript id s ≡ access_snapshot id "" s
unfolding subscript access_snapshot
subscript-access_snapshot id s = refl

pub subscript_const-database_at :
    (id : Guid) (s : Snapshot) → subscript_const id s ≡ database_at id s
unfolding subscript_const
subscript_const-database_at id s = seek-find database_guid id s.databases

pub access_snapshot-IsSorted :
    (id : Guid) (name : String) (s : Snapshot)
    → IsSorted database_guid s.databases
    → IsSorted database_guid (access_snapshot id name s).databases
unfolding access_snapshot new_database
access_snapshot-IsSorted id name s h =
    ground (arith, emplace-Above database_guid 0 (new_database id name) s.databases)

pub database_at-access_snapshot :
    (k id : Guid) (name : String) (s : Snapshot)
    → IsSorted database_guid s.databases
    → database_at k (access_snapshot id name s) ≡ (
        if id == k
        then some (from_option (database_at id s) (new_database id name))
        else database_at k s)
unfolding access_snapshot new_database
database_at-access_snapshot k id name s h = ground (
  arith,
  seek-find database_guid id s.databases,
  find-emplace database_guid k 0 (new_database id name) s.databases,
)

pub write_participants-IsSorted :
    (id : Guid) (f : List ParticipantDiscoveryItem → List ParticipantDiscoveryItem) (s : Snapshot)
    → IsSorted database_guid s.databases
    → IsSorted database_guid (write_participants id f s).databases
unfolding write_participants
write_participants-IsSorted id f s h =
    modify-Above database_guid 0 id (put_participants f) s.databases (λ db. refl) h

pub database_at-write_participants :
    (k id : Guid) (f : List ParticipantDiscoveryItem → List ParticipantDiscoveryItem) (s : Snapshot)
    → IsSorted database_guid s.databases
    → database_at k (write_participants id f s)
      ≡ (if id == k then map_option (put_participants f) (database_at k s) else database_at k s)
unfolding write_participants
database_at-write_participants k id f s h =
    find-modify database_guid k id 0 (put_participants f) s.databases (λ db. refl) h

-- A write behind access_snapshot, as every operation makes it.
abbrev pub update :
    Guid
    → String
    → (List ParticipantDiscoveryItem → List ParticipantDiscoveryItem)
    → Snapshot
    → Snapshot
update id name f s = write_participants id f (access_snapshot id name s)

pub database_at-update :
    (k id : Guid) (name : String)
    (f : List ParticipantDiscoveryItem → List ParticipantDiscoveryItem) (s : Snapshot)
    → IsSorted database_guid s.databases
    → database_at k (update id name f s) ≡ (
        if id == k
        then some (put_participants f (from_option (database_at id s) (new_database id name)))
        else database_at k s)
database_at-update k id name f s h = ground (
  arith,
  database_at-write_participants k id f (access_snapshot id name s)
      (access_snapshot-IsSorted id name s h),
  database_at-access_snapshot k id name s h,
)

-- The participants behind the reference that access_snapshot returns.
pub participants_of-access_snapshot :
    (id : Guid) (name : String) (s : Snapshot)
    → IsSorted database_guid s.databases
    → participants_of id (access_snapshot id name s) ≡ participants_of id s
unfolding participants_of new_database
participants_of-access_snapshot id name s h =
    ground (arith, database_at-access_snapshot id id name s h)

pub participants_of-update :
    (k id : Guid) (name : String)
    (f : List ParticipantDiscoveryItem → List ParticipantDiscoveryItem) (s : Snapshot)
    → IsSorted database_guid s.databases
    → participants_of k (update id name f s)
      ≡ (if id == k then f (participants_of id s) else participants_of k s)
unfolding participants_of new_database
participants_of-update k id name f s h = ground (arith, database_at-update k id name f s h)

pub participant_at-participants_of :
    (s p : Guid) (image : Snapshot)
    → participant_at s p image ≡ find participant_guid p (participants_of s image)
unfolding participants_of find
participant_at-participants_of s p image = ground arith

-- What the spokesman `s` knows of `p` after a write to the database of `id`.
pub participant_at-update :
    (s p id : Guid) (name : String)
    (f : List ParticipantDiscoveryItem → List ParticipantDiscoveryItem) (image : Snapshot)
    → IsSorted database_guid image.databases
    → participant_at s p (update id name f image) ≡ (
        if id == s
        then find participant_guid p (f (participants_of id image))
        else participant_at s p image)
participant_at-update s p id name f image h = ground (
  arith,
  participant_at-participants_of s p image,
  participant_at-participants_of s p (update id name f image),
  participants_of-update s id name f image h,
)

module _ {ℓ} (P : List ParticipantDiscoveryItem → Type ℓ) where
  abbrev pub AllParticipants : Snapshot → Type ℓ
  AllParticipants s = All (λ db. P db.participants) s.databases

  pub AllParticipants-access_snapshot :
      (id : Guid) (name : String) (s : Snapshot)
      → P (new_database id name).participants
      → AllParticipants s
      → AllParticipants (access_snapshot id name s)
  unfolding access_snapshot
  AllParticipants-access_snapshot id name s p ps = ground (
    arith,
    All-emplace database_guid (λ db. P db.participants) (new_database id name) s.databases p ps,
  )

  pub AllParticipants-write_participants :
      (id : Guid) (f : List ParticipantDiscoveryItem → List ParticipantDiscoveryItem) (s : Snapshot)
      → ((ps : List ParticipantDiscoveryItem) → P ps → P (f ps))
      → AllParticipants s
      → AllParticipants (write_participants id f s)
  unfolding write_participants
  AllParticipants-write_participants id f s step =
      All-modify database_guid (λ db. P db.participants) id (put_participants f) s.databases
        (λ db. step db.participants)

  pub AllParticipants-participants_of :
      (id : Guid) (s : Snapshot) → P [] → AllParticipants s → P (participants_of id s)
  unfolding participants_of
  AllParticipants-participants_of id s e ps = elim (Option-cases (database_at id s)) [
    | inl a ↦ rw (a, participants_of) e
    | inr (db, a) ↦
        rw (a, participants_of) (All-find database_guid (λ d. P d.participants) id s.databases a ps)
  ]
