-- ===== src/Manager/Validation.antt =====
-- What validateAllSnapshots answers, against a description of a snapshot in which everyone knows
-- everyone.
use discovery_server.Prelude.{
  ◌≡◌, ◌↔◌, refl, bind_option, Option, Bool, true, false, not, ◌&&◌, none, some, List, [], ◌∷◌,
  arith, All, Bool-cases, if◌then◌else◌, suc, ◌∙◌, ap, sym, inl, inr,
}
use discovery_server.OrderedSet.{find}
use discovery_server.OrderedSet.Order.{Above, IsSorted}
use discovery_server.Item.{participant_guid}
use discovery_server.Item.Equality.{set_eq, participant_eq}
use discovery_server.Snapshot.{ParticipantDiscoveryDatabase, Snapshot, database_guid}
use discovery_server.Compare.{database_eq}
use discovery_server.Compare.Exact.{database_eq_exact, visible_of}
use discovery_server.Compare.Relation.{database_eq_terminates}
use discovery_server.Manager.{
  Manager, each_next, traverse, nobody, all_know_each_other, validate_snapshots,
  validate_all_snapshots,
}

abbrev Databases : Type 0
Databases = List ParticipantDiscoveryDatabase

-- Two participants see the same living ones, apart from themselves.
abbrev pub same_view : ParticipantDiscoveryDatabase → ParticipantDiscoveryDatabase → Bool
same_view a b = set_eq participant_eq (visible_of a b a) (visible_of a b b)

abbrev neighbours : ParticipantDiscoveryDatabase → Databases → Bool
neighbours d [] = true
neighbours d (e ∷ ds) = same_view d e && neighbours e ds

abbrev chain : Databases → Bool
chain [] = true
chain (d ∷ ds) = neighbours d ds

-- No two neighbours disagree, and if someone is expected, then the first database has someone.
abbrev pub knows_everyone : Snapshot → Bool
knows_everyone sh = not (sh.if_someone && nobody sh.databases) && chain sh.databases

abbrev pub all_known : List Snapshot → Bool
all_known [] = true
all_known (sh ∷ shs) = knows_everyone sh && all_known shs

-- A participant is not listed among those that it has discovered.
pub record IsPlain (d : ParticipantDiscoveryDatabase) : Type 0 where
  pub in_order : IsSorted participant_guid d.participants
  pub not_own : find participant_guid d.endpoint_guid d.participants ≡ none

pub record IsPlainSnapshot (sh : Snapshot) : Type 0 where
  pub databases_in_order : IsSorted database_guid sh.databases
  pub databases_plain : All IsPlain sh.databases

each_next_step :
    (d e : ParticipantDiscoveryDatabase) (ds : Databases) (same rest : Bool)
    → database_eq d e ≡ some same
    → each_next e ds ≡ some rest
    → each_next d (e ∷ ds) ≡ some (same && rest)
unfolding each_next
each_next_step d e ds true rest f g = rw (f, g) refl
each_next_step d e ds false rest f g = rw f refl

if_some : (b c : Bool) → (if b then some false else some c) ≡ some (not b && c)
if_some true c = refl
if_some false c = refl

each_next_exact :
    (d : ParticipantDiscoveryDatabase) (ds : Databases)
    → IsPlain d
    → All IsPlain ds
    → Above database_guid (suc d.endpoint_guid) ds
    → each_next d ds ≡ some (neighbours d ds)
unfolding each_next
each_next_exact d [] p ps s = refl
each_next_exact d (e ∷ ds) p ps s =
    each_next_step d e ds (same_view d e) (neighbours e ds)
      (database_eq_exact d e (λ same. omega (arith, s.0, same)) p.in_order ps.0.in_order p.not_own
        ps.0.not_own)
      (each_next_exact e ds ps.0 ps.1 s.1)

traverse_exact :
    (dbs : Databases)
    → IsSorted database_guid dbs
    → All IsPlain dbs
    → traverse dbs ≡ some (chain dbs)
unfolding traverse
traverse_exact [] s p = refl
traverse_exact (d ∷ ds) s p = each_next_exact d ds p.0 p.1 s.1

all_know_each_other_exact :
    (sh : Snapshot) → IsPlainSnapshot sh → all_know_each_other sh ≡ some (knows_everyone sh)
unfolding all_know_each_other
all_know_each_other_exact sh p =
    rw (traverse_exact sh.databases p.databases_in_order p.databases_plain)
      (if_some (sh.if_someone && nobody sh.databases) (chain sh.databases))

and_false : (b : Bool) → (b && false) ≡ false
and_false true = refl
and_false false = refl

validate_snapshots_exact :
    (shs : List Snapshot) (work_it_all : Bool)
    → All IsPlainSnapshot shs
    → validate_snapshots shs work_it_all ≡ some (work_it_all && all_known shs)
unfolding validate_snapshots
validate_snapshots_exact [] true h = refl
validate_snapshots_exact [] false h = refl
validate_snapshots_exact (sh ∷ shs) w h = elim (Bool-cases (knows_everyone sh)) [
  | inl e ↦ rw (all_know_each_other_exact sh h.0, e) (validate_snapshots_exact shs w h.1)
  | inr e ↦
      rw (all_know_each_other_exact sh h.0, e)
        (validate_snapshots_exact shs false h.1 ∙ ap some (sym (and_false w)))
]

-- For snapshots whose databases and participants are in GUID order, and in which no participant
-- is listed among those that it has discovered, validateAllSnapshots returns, and it returns true
-- exactly if in each snapshot all neighbouring databases list the same living participants with
-- the same endpoints, leaving out the two participants compared, and, if someone is expected, the
-- first database is not empty.
pub validate_all_snapshots_exact :
    (m : Manager)
    → All IsPlainSnapshot m.snapshots
    → validate_all_snapshots m ≡ some (all_known m.snapshots)
unfolding validate_all_snapshots
validate_all_snapshots_exact m h = validate_snapshots_exact m.snapshots true h

-- Each database compares equal to the next.
abbrev pub AgreeFrom : ParticipantDiscoveryDatabase → Databases → Type 0
AgreeFrom d [] = Unit {0}
AgreeFrom d (e ∷ ds) = (database_eq d e ≡ some true) × AgreeFrom e ds

abbrev pub Agree : Databases → Type 0
Agree [] = Unit {0}
Agree (d ∷ ds) = AgreeFrom d ds

pub record IsConsistent (sh : Snapshot) : Type 0 where
  pub someone : (sh.if_someone && nobody sh.databases) ≡ false
  pub agree : Agree sh.databases

-- A run that returns, with true exactly if `P` holds.
abbrev Decides : Option Bool → Type 0 → Type 0
Decides o P = (r : Bool) × (o ≡ some r) × ((r ≡ true) ↔ P)

refuted : {P : Type 0} → ¬ P → (false ≡ true) ↔ P
refuted h = (λ e. grind (arith, e), λ x. absurd (h x))

decides_itself : {o : Option Bool} {r : Bool} → o ≡ some r → Decides o (o ≡ some true)
decides_itself {o} {r} f = (r, f, (λ e. f ∙ ap some e, λ g. grind (arith, f, g)))

-- A test behind another, as `&&` has them.
decides_both :
    {o rest : Option Bool} {P Q : Type 0}
    → Decides o P
    → Decides rest Q
    → Decides (bind_option o (λ b. if b then rest else some false)) (P × Q)
decides_both {o} {rest} {P} {Q} (b, f, iff) y = go b f iff
  where
    go :
        (b : Bool)
        → o ≡ some b
        → (b ≡ true) ↔ P
        → Decides (bind_option o (λ b. if b then rest else some false)) (P × Q)
    go true f iff = (y.0, rw f (y.1), (λ e. (iff.0 refl, y.2.0 e), λ x. y.2.1 x.1))
    go false f iff = (false, rw f refl, refuted (λ x. (refuted {P = ⊥} (λ z. z)).0 (iff.1 x.0)))

each_next_decides :
    (d : ParticipantDiscoveryDatabase) (ds : Databases) → Decides (each_next d ds) (AgreeFrom d ds)
unfolding each_next
each_next_decides d [] = (true, refl, (λ e. tt, λ x. refl))
each_next_decides d (e ∷ ds) =
    decides_both (decides_itself (database_eq_terminates d e).1) (each_next_decides e ds)

traverse_decides : (dbs : Databases) → Decides (traverse dbs) (Agree dbs)
unfolding traverse
traverse_decides [] = (true, refl, (λ e. tt, λ x. refl))
traverse_decides (d ∷ ds) = each_next_decides d ds

all_know_each_other_decides : (sh : Snapshot) → Decides (all_know_each_other sh) (IsConsistent sh)
unfolding all_know_each_other
all_know_each_other_decides sh = elim (Bool-cases (sh.if_someone && nobody sh.databases)) [
  | inl e ↦ (false, rw e refl, refuted (λ c. grind (arith, e, c.someone)))
  | inr e ↦
      let (r, f, iff) = traverse_decides sh.databases in
      (r, rw e f, (λ x. record { someone = e; agree = iff.0 x }, λ c. iff.1 c.agree))
]

validate_snapshots_decides :
    (shs : List Snapshot) (w : Bool)
    → Decides (validate_snapshots shs w) ((w ≡ true) × All IsConsistent shs)
unfolding validate_snapshots
validate_snapshots_decides [] w = (w, refl, (λ e. (e, tt), λ x. x.0))
validate_snapshots_decides (sh ∷ shs) w =
    let (known, f, iff) = all_know_each_other_decides sh in
    go (λ w'. validate_snapshots_decides shs w') known f iff
  where
    go :
        ((w' : Bool) → Decides (validate_snapshots shs w') ((w' ≡ true) × All IsConsistent shs))
        → (known : Bool) → all_know_each_other sh ≡ some known
        → (known ≡ true) ↔ IsConsistent sh
        → Decides (validate_snapshots (sh ∷ shs) w) ((w ≡ true) × All IsConsistent (sh ∷ shs))
    go others true f iff =
        let (r, g, ih) = others w in
        (r, rw f g, (λ e. ((ih.0 e).0, (iff.0 refl, (ih.0 e).1)), λ x. ih.1 (x.0, x.1.1)))
    go others false f iff =
        let (r, g, ih) = others false in
        (r, rw f g, (λ e. grind (arith, (ih.0 e).0), λ x. grind (arith, iff.1 (x.1.0))))

-- validateAllSnapshots returns for any snapshots, in order or not, and it returns true exactly if in
-- every snapshot each database compares equal to the next by operator == and, where someone is
-- expected, there is a first database, which is not empty.
pub validate_all_snapshots_decides :
    (m : Manager)
    → (r : Bool) × (validate_all_snapshots m ≡ some r) × ((r ≡ true) ↔ All IsConsistent m.snapshots)
unfolding validate_all_snapshots
validate_all_snapshots_decides m =
    let (r, f, iff) = validate_snapshots_decides m.snapshots true in
    (r, f, (λ e. (iff.0 e).1, λ h. iff.1 (refl, h)))
