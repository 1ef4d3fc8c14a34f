-- ===== src/Snapshot/Rounding.antt =====
-- What is lost of a time that a file of snapshots keeps, src/DiscoveryItem.cpp.
use discovery_server.Prelude.{◌+◌, ◌<◌, ◌≡◌, arith}
use discovery_server.Prelude.Int.{
  ℤ, pos, negsuc, pos_part, neg_part, ◌+ℤ◌, ◌-ℤ◌, -ℤ_parts, +ℤ_parts,
}
use discovery_server.Item.{TimePoint}
use discovery_server.Xml.{Xml, GuidText}
use discovery_server.Clock.{to_ms, from_ms}
use discovery_server.Snapshot.Writing.{set_discovered}
use discovery_server.Snapshot.Reading.{get_discovered}
use discovery_server.Snapshot.Reloaded.{rebased}

-- Less than a millisecond apart.
abbrev pub IsWithinMs : ℤ → ℤ → Type 0
IsWithinMs a b =
    (pos_part a + neg_part b < pos_part b + neg_part a + 1000000)
    × (pos_part b + neg_part a < pos_part a + neg_part b + 1000000)

rounded : (n : ℤ) → IsWithinMs n (from_ms (to_ms n))
unfolding from_ms to_ms
rounded (pos n) = (ground arith, ground arith)
rounded (negsuc n) = (ground arith, ground arith)

rebased_back :
    (startup startup' t : TimePoint)
    → IsWithinMs (t -ℤ startup) (rebased startup startup' t -ℤ startup')
rebased_back startup startup' t =
    let r = from_ms (to_ms (t -ℤ startup)) in
    (
      omega (arith, rounded (t -ℤ startup), +ℤ_parts startup' r, -ℤ_parts (startup' +ℤ r) startup'),
      omega (arith, rounded (t -ℤ startup), +ℤ_parts startup' r, -ℤ_parts (startup' +ℤ r) startup'),
    )

module _ (x : Xml) (g : GuidText) where
  open x use {Element, attribute-set_attribute, to_int-of_int}

  get_discovered-set_discovered :
      (startup startup' t : TimePoint) (e : Element)
      → get_discovered x g startup' (set_discovered x g startup t e) ≡ rebased startup startup' t
  unfolding get_discovered set_discovered
  get_discovered-set_discovered startup startup' t e = simp (attribute-set_attribute, to_int-of_int)

  -- A time of discovery that is written into an element and read from it, in a process that starts
  -- at another time, lies less than a millisecond off, each counted from the start of its process.
  pub get_discovered-set_discovered_within :
      (startup startup' t : TimePoint) (e : Element)
      → IsWithinMs
          (t -ℤ startup)
          (get_discovered x g startup' (set_discovered x g startup t e) -ℤ startup')
  get_discovered-set_discovered_within startup startup' t e =
      rw (get_discovered-set_discovered startup startup' t e) (rebased_back startup startup' t)
