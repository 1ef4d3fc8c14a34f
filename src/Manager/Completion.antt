-- ===== src/Manager/Completion.antt =====
-- The loop of takeSnapshot that enters the participants without any discovery information.
use discovery_server.Prelude.{
  ℕ, zero, suc, ◌≤◌, ◌<◌, ◌≡◌, refl, sym, ap, subst, ◌∙◌, Bool, false, ◌&&◌, ◌||◌, some, List, [],
  ◌∷◌, arith, ◌==◌, ltb, if◌then◌else◌, is_none, length, All, Bool-cases, inl, inr,
}
use discovery_server.OrderedSet.{find, emplace}
use discovery_server.OrderedSet.Order.{Above, IsSorted, emplace-Above, Above-mono}
use discovery_server.OrderedSet.Lookup.{find-emplace, emplace_present}
use discovery_server.Item.{Guid}
use discovery_server.Snapshot.{ParticipantDiscoveryDatabase, database_guid, new_database}
use discovery_server.Manager.{GuidMap, Pointer, mismatch, from_database, complete, completed}

abbrev Databases : Type 0
Databases = List ParticipantDiscoveryDatabase

-- Every key of the map is entered, where it is missing.
pub enter_all : GuidMap Pointer → Databases → Databases
enter_all [] dbs = dbs
enter_all (e ∷ es) dbs = enter_all es (emplace database_guid (new_database e.0 "") dbs)

abbrev pub has_key : Guid → GuidMap Pointer → Bool
has_key k [] = false
has_key k (e ∷ es) = e.0 == k || has_key k es

abbrev IsIn : Databases → ParticipantDiscoveryDatabase → Type 0
IsIn shot d = is_none (find database_guid d.endpoint_guid shot) ≡ false

new_database_guid : (k : Guid) → (new_database k "").endpoint_guid ≡ k
unfolding new_database
new_database_guid k = refl

emplace_key :
    (e : Guid × Pointer) (d : ParticipantDiscoveryDatabase) (shot : Databases)
    → IsSorted database_guid shot
    → e.0 ≡ d.endpoint_guid
    → IsIn shot d
    → emplace database_guid (new_database e.0 "") shot ≡ shot
emplace_key e d shot s same h =
    emplace_present database_guid 0 (new_database e.0 "") shot s
      (rw (new_database_guid e.0, same) h)

enter_step :
    (e : Guid × Pointer) (es : GuidMap Pointer) (shot : Databases)
    → enter_all (e ∷ es) shot ≡ enter_all es (emplace database_guid (new_database e.0 "") shot)
unfolding enter_all
enter_step e es shot = refl

skip_present :
    (e : Guid × Pointer) (es : GuidMap Pointer) (d : ParticipantDiscoveryDatabase)
    (shot : Databases)
    → IsSorted database_guid shot
    → e.0 ≡ d.endpoint_guid
    → IsIn shot d
    → enter_all (e ∷ es) shot ≡ enter_all es shot
skip_present e es d shot s same h =
    enter_step e es shot ∙ ap (enter_all es) (emplace_key e d shot s same h)

-- What std::mismatch passes over is in the snapshot already.
record Passed (es : GuidMap Pointer) (it shot : Databases) (res : GuidMap Pointer × Databases)
    : Type 0 where
  entered : enter_all es shot ≡ enter_all res.0 shot
  fewer : length res.0 ≤ length es
  still_in : All (IsIn shot) res.1

mismatch-Passed :
    (es : GuidMap Pointer) (it shot : Databases)
    → IsSorted database_guid shot
    → All (IsIn shot) it
    → Passed es it shot (mismatch es it)
unfolding mismatch
mismatch-Passed [] it shot s h = record { entered = refl; fewer = omega arith; still_in = h }
mismatch-Passed (e ∷ es) [] shot s h = record { entered = refl; fewer = omega arith; still_in = tt }
mismatch-Passed (e ∷ es) (d ∷ ds) shot s h = elim (Bool-cases (e.0 == d.endpoint_guid)) [
  | inl same ↦
      let rest = mismatch-Passed es ds shot s h.1 in
      rw same (record {
        entered = skip_present e es d shot s (ground arith) h.0 ∙ rest.entered;
        fewer = omega (arith, rest.fewer);
        still_in = rest.still_in;
      })
  | inr differ ↦ rw differ (record { entered = refl; fewer = omega arith; still_in = h })
]

All-IsIn-cons :
    (x : ParticipantDiscoveryDatabase) (xs ds : Databases)
    → Above database_guid (suc x.endpoint_guid) ds
    → All (IsIn xs) ds
    → All (IsIn (x ∷ xs)) ds
unfolding find
All-IsIn-cons x xs [] s h = tt
All-IsIn-cons x xs (d ∷ ds) s h =
    (ground arith, All-IsIn-cons x xs ds (Above-mono database_guid _ _ ds (omega arith) s.1) h.1)

-- A set contains its elements, and so does each of its ends.
All-IsIn : (b : ℕ) (xs : Databases) → Above database_guid b xs → All (IsIn xs) xs
unfolding find
All-IsIn b [] s = tt
All-IsIn b (x ∷ xs) s =
    (ground arith, All-IsIn-cons x xs xs s.1 (All-IsIn (suc x.endpoint_guid) xs s.1))

from_IsIn :
    (k : Guid) (shot ds : Databases) → All (IsIn shot) ds → All (IsIn shot) (from_database k ds)
unfolding from_database
from_IsIn k shot [] h = tt
from_IsIn k shot (d ∷ ds) h = ground (arith, from_IsIn k shot ds h.1)

-- The element just entered stands where emplace_hint's iterator points.
from-emplace :
    (k b : Guid) (shot : Databases)
    → Above database_guid b shot
    → (rest : Databases) × (d : ParticipantDiscoveryDatabase) × (d.endpoint_guid ≡ k)
      × (from_database k (emplace database_guid (new_database k "") shot) ≡ d ∷ rest)
unfolding from_database emplace new_database
from-emplace k b [] s = ([], new_database k "", refl, ground arith)
from-emplace k b (x ∷ xs) s = elim (Bool-cases (ltb x.endpoint_guid k)) [
  | inl below ↦
      let (rest, d, e, f) = from-emplace k (suc x.endpoint_guid) xs s.1 in
      (rest, d, e, ground (arith, f, below))
  | inr above ↦ elim (Bool-cases (x.endpoint_guid == k)) [
    | inl same ↦ (xs, x, ground arith, ground arith)
    | inr differ ↦ (x ∷ xs, new_database k "", refl, ground arith)
  ]
]

from_emplace_step :
    (e : Guid × Pointer) (es : GuidMap Pointer) (d : ParticipantDiscoveryDatabase)
    (rest : Databases)
    → d.endpoint_guid ≡ e.0
    → mismatch (e ∷ es) (d ∷ rest) ≡ mismatch es rest
unfolding mismatch
from_emplace_step e es d rest h = ground arith

-- Each round passes one participant at least, so their number is enough fuel.
complete_exact :
    (n : ℕ) (es : GuidMap Pointer) (it shot : Databases)
    → length es < n
    → IsSorted database_guid shot
    → complete n es it shot ≡ some (enter_all es shot)
unfolding complete enter_all
complete_exact zero es it shot fuel s = ground arith
complete_exact (suc n) [] it shot fuel s = refl
complete_exact (suc n) (e ∷ es) it shot fuel s =
    let shot' = emplace database_guid (new_database e.0 "") shot in
    let s' = emplace-Above database_guid 0 (new_database e.0 "") shot (ground arith) s in
    let (rest, d, same, f) = from-emplace e.0 0 shot s in
    let inside = subst (All (IsIn shot')) f (from_IsIn e.0 shot' shot' (All-IsIn 0 shot' s')) in
    let passed = mismatch-Passed es rest shot' s' inside.1 in
    let res = mismatch es rest in
    rw (f, from_emplace_step e es d rest same)
      (complete_exact n res.0 res.1 shot' (omega (arith, passed.fewer, fuel)) s'
        ∙ ap some (sym passed.entered))

pub enter_all_res :
    (temp : GuidMap Pointer) (shot : Databases)
    → IsSorted database_guid shot
    → completed temp shot ≡ some (enter_all temp shot)
unfolding completed
enter_all_res temp shot s =
    let passed = mismatch-Passed temp shot shot s (All-IsIn 0 shot s) in
    let res = mismatch temp shot in
    complete_exact (suc (length temp)) res.0 res.1 shot (omega (arith, passed.fewer)) s
    ∙ ap some (sym passed.entered)

enter_all-Above :
    (es : GuidMap Pointer) (dbs : Databases)
    → IsSorted database_guid dbs
    → IsSorted database_guid (enter_all es dbs)
unfolding enter_all
enter_all-Above [] dbs s = s
enter_all-Above (e ∷ es) dbs s =
    enter_all-Above es (emplace database_guid (new_database e.0 "") dbs)
      (emplace-Above database_guid 0 (new_database e.0 "") dbs (ground arith) s)

-- What the completed set holds at each key.
pub find-enter_all :
    (k : Guid) (es : GuidMap Pointer) (dbs : Databases)
    → IsSorted database_guid dbs
    → find database_guid k (enter_all es dbs) ≡ (
        if is_none (find database_guid k dbs) && has_key k es
        then some (new_database k "")
        else find database_guid k dbs)
unfolding enter_all new_database
find-enter_all k [] dbs s = ground arith
find-enter_all k (e ∷ es) dbs s =
    let dbs' = emplace database_guid (new_database e.0 "") dbs in
    let s' = emplace-Above database_guid 0 (new_database e.0 "") dbs (ground arith) s in
    ground (
      arith,
      find-enter_all k es dbs' s',
      find-emplace database_guid k 0 (new_database e.0 "") dbs s,
    )
