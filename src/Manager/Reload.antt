-- ===== src/Manager/Reload.antt =====
-- saveSnapshots and then loadSnapshots, src/DiscoveryServerManager.cpp.
use discovery_server.Prelude.{
  ◌≡◌, refl, sym, ap, ◌∙◌, Bool, true, false, some, List, [], ◌∷◌, ◌++◌, map, if◌then◌else◌,
  is_empty, bind_option, All, Option-cases, inl, inr,
}
use mathlib.Core.List.{append_assoc, append-nil}
use discovery_server.Item.{TimePoint}
use discovery_server.Snapshot.{ParticipantDiscoveryDatabase, Snapshot}
use discovery_server.Snapshot.Writing.{to_xml, snapshot_attributes, database_to_xml}
use discovery_server.Snapshot.Reloaded.{
  reloaded, reloaded_startup, reloaded_database, reloaded_participant,
}
use discovery_server.Snapshot.LoopTrip.{name-insert_each, children-insert_each}
use discovery_server.Snapshot.RoundTrip.{IsOrdered, from_xml-to_xml}
use discovery_server.Snapshot.Harmless.{database_eq-reloaded_database}
use discovery_server.Xml.{Xml, GuidText}
use discovery_server.Ids.{s_ds_snapshots, s_ds_snapshot}
use discovery_server.Manager.{
  Manager, each_next, nobody, all_know_each_other, validate_snapshots, validate_all_snapshots,
  traverse,
}
use discovery_server.Manager.Files.{save_snapshots, load_snapshots, append_each}

is_empty-map : {A : Type 0} (f : A → A) (xs : List A) → is_empty (map f xs) ≡ is_empty xs
is_empty-map f [] = refl
is_empty-map f (x ∷ xs) = refl

module _ (g : GuidText) (startup startup' : TimePoint) (show : Bool) where
  each_next-map :
      (d : ParticipantDiscoveryDatabase) (ds : List ParticipantDiscoveryDatabase)
      → each_next
          (reloaded_database g startup startup' show d)
          (map (reloaded_database g startup startup' show) ds)
        ≡ each_next d ds
  unfolding each_next
  each_next-map d [] = refl
  each_next-map d (e ∷ ds) =
      rw (each_next-map e ds, database_eq-reloaded_database g startup startup' show d e) refl

  traverse-map :
      (ds : List ParticipantDiscoveryDatabase)
      → traverse (map (reloaded_database g startup startup' show) ds) ≡ traverse ds
  unfolding traverse
  traverse-map [] = refl
  traverse-map (d ∷ ds) = each_next-map d ds

  nobody-map :
      (ds : List ParticipantDiscoveryDatabase)
      → nobody (map (reloaded_database g startup startup' show) ds) ≡ nobody ds
  nobody-map [] = refl
  nobody-map (d ∷ ds) =
      is_empty-map (reloaded_participant g startup startup' show d.endpoint_guid) d.participants

-- The clocks of the process that saves, and of the one that loads.
module _ (x : Xml) (g : GuidText)
    (system_clock steady_clock system_clock' steady_clock' : TimePoint) where
  open x use {
    Element, name, children, new_element, name-new_element, name-set_attribute,
    name-insert_end_child, children-set_attribute, children-new_element,
  }

  abbrev pub snapshot_element : Snapshot → Element
  snapshot_element s = to_xml x g system_clock steady_clock s (new_element s_ds_snapshot)

  abbrev pub reloaded_here : Snapshot → Snapshot
  reloaded_here = reloaded g system_clock steady_clock system_clock' steady_clock'

  all_know_each_other-reloaded :
      (s : Snapshot) → all_know_each_other (reloaded_here s) ≡ all_know_each_other s
  unfolding all_know_each_other
  all_know_each_other-reloaded s =
      let startup' = reloaded_startup g system_clock steady_clock system_clock' steady_clock' s in
      rw
        (
          nobody-map g s.process_startup startup' s.show_liveliness s.databases,
          traverse-map g s.process_startup startup' s.show_liveliness s.databases,
        )
        refl

  validate_snapshots-map :
      (ss : List Snapshot) (b : Bool)
      → validate_snapshots (map reloaded_here ss) b ≡ validate_snapshots ss b
  unfolding validate_snapshots
  validate_snapshots-map [] b = refl
  validate_snapshots-map (s ∷ ss) b =
      rw (all_know_each_other-reloaded s) (elim (Option-cases (all_know_each_other s)) [
        | inl e ↦ rw e refl
        | inr (k, e) ↦ rw e (validate_snapshots-map ss (if k then b else false))
      ])

  name-snapshot_element : (s : Snapshot) → name (snapshot_element s) ≡ s_ds_snapshot
  unfolding to_xml snapshot_attributes
  name-snapshot_element s =
      name-insert_each x g (database_to_xml x g s.process_startup s.show_liveliness) s.databases _
      ∙ simp (name-insert_end_child, name-set_attribute, name-new_element)

  pub saved :
      (m : Manager)
      → children s_ds_snapshot (save_snapshots x g system_clock steady_clock m)
        ≡ map snapshot_element m.snapshots
  unfolding save_snapshots
  saved m =
      children-insert_each x g s_ds_snapshot snapshot_element m.snapshots _
        (λ s. rw (name-snapshot_element s) refl)
      ∙ ap (λ es. es ++ map snapshot_element m.snapshots)
          (children-set_attribute s_ds_snapshot _ _ _
            ∙ children-new_element s_ds_snapshot s_ds_snapshots)

  append_each-map :
      (ss acc : List Snapshot)
      → All IsOrdered ss
      → append_each x g system_clock' steady_clock' (map snapshot_element ss) acc
        ≡ some (acc ++ map reloaded_here ss)
  unfolding append_each
  append_each-map [] acc h = ap some (sym (append-nil acc))
  append_each-map (s ∷ ss) acc h =
      rw
        (from_xml-to_xml x g system_clock steady_clock s_ds_snapshot s system_clock' steady_clock'
          h.0 steady_clock')
        (append_each-map ss (acc ++ reloaded_here s ∷ []) h.1
          ∙ ap some (append_assoc acc (reloaded_here s ∷ []) (map reloaded_here ss)))

  -- Where the manager has no snapshots, and those that were saved are in order and have
  -- descriptions, loadSnapshots returns true and gives the manager the saved snapshots, as
  -- from_xml reads them.
  pub load_snapshots-save_snapshots :
      (m m' : Manager)
      → All IsOrdered m.snapshots
      → m'.snapshots ≡ []
      → load_snapshots x g system_clock' steady_clock'
          (some (save_snapshots x g system_clock steady_clock m))
          m'
        ≡ some (record m' { snapshots = map reloaded_here m.snapshots }, true)
  unfolding load_snapshots
  load_snapshots-save_snapshots m m' h e = rw (e, saved m, append_each-map m.snapshots [] h) refl

  -- A manager that has no snapshots and loads a file of snapshots in order, all with descriptions,
  -- validates it as the manager that saved it validates its own snapshots.
  pub validate_all_snapshots-load_snapshots :
      (m m' : Manager)
      → All IsOrdered m.snapshots
      → m'.snapshots ≡ []
      → bind_option
          (load_snapshots x g system_clock' steady_clock'
            (some (save_snapshots x g system_clock steady_clock m))
            m')
          (λ r. validate_all_snapshots r.0)
        ≡ validate_all_snapshots m
  unfolding validate_all_snapshots
  validate_all_snapshots-load_snapshots m m' h e =
      rw (load_snapshots-save_snapshots m m' h e) (validate_snapshots-map m.snapshots true)
