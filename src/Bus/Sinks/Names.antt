-- ===== src/Bus/Sinks/Names.antt =====
-- The names of the sinks of a bus.
use extlib.Common.{
  ◌≡◌, inl, inr, none, some, List, [], ◌∷◌, arith, ◌==◌, Bool-cases, ok, Bytes, success,
}
use extlib.Text.{same_text_refl}
use extlib.Bus.Sinks.{Sink, find_sink, add_sink, del_sink, apibus_open}

-- No two sinks have one name.
abbrev pub DistinctNames : {R : Type 0} → List (Sink R) → Type 0
DistinctNames [] = Unit
DistinctNames (s ∷ ss) = (find_sink s.name ss ≡ none) × DistinctNames ss

module _ {R : Type 0} where
  find_sink-del_none :
      (name : Bytes) (sink : Sink R) (ss : List (Sink R))
      → find_sink name ss ≡ none
      → find_sink name (del_sink sink ss) ≡ none
  unfolding find_sink del_sink
  find_sink-del_none name sink [] h = h
  find_sink-del_none name sink (s ∷ ss) h = ground (arith, find_sink-del_none name sink ss)

  del_sink-DistinctNames :
      (sink : Sink R) (ss : List (Sink R)) → DistinctNames ss → DistinctNames (del_sink sink ss)
  unfolding del_sink
  del_sink-DistinctNames sink [] h = h
  del_sink-DistinctNames sink (s ∷ ss) (out, h) = elim (Bool-cases (s.address == sink.address)) [
    | inl e ↦ rw e h
    | inr e ↦ rw e (find_sink-del_none s.name sink ss out, del_sink-DistinctNames sink ss h)
  ]

  add_sink-DistinctNames :
      (sink : Sink R) (ss : List (Sink R)) → DistinctNames ss → DistinctNames (add_sink sink ss).2
  unfolding add_sink
  add_sink-DistinctNames sink ss h = ground arith

-- what is done to the sinks of a bus
pub data Change (R : Type 0) : Type 0 where
  adds dels : Sink R → Change R

module _ {R : Type 0} where
  abbrev pub change : Change R → List (Sink R) → List (Sink R)
  change (adds sink) ss = (add_sink sink ss).2
  change (dels sink) ss = del_sink sink ss

  abbrev pub changes : List (Change R) → List (Sink R) → List (Sink R)
  changes [] ss = ss
  changes (c ∷ cs) ss = changes cs (change c ss)

  change-DistinctNames :
      (c : Change R) (ss : List (Sink R)) → DistinctNames ss → DistinctNames (change c ss)
  change-DistinctNames (adds sink) ss h = add_sink-DistinctNames sink ss h
  change-DistinctNames (dels sink) ss h = del_sink-DistinctNames sink ss h

  changes-DistinctNames :
      (cs : List (Change R)) (ss : List (Sink R)) → DistinctNames ss → DistinctNames (changes cs ss)
  changes-DistinctNames [] ss h = h
  changes-DistinctNames (c ∷ cs) ss h =
      changes-DistinctNames cs (change c ss) (change-DistinctNames c ss h)

  -- However sinks are added to a new bus and taken away, no two have one name; and a sink that can be
  -- added then is the one that its name opens.
  pub changes-open :
      (cs : List (Change R)) (sink : Sink R) (op : Bytes → R) (addr : Bytes)
      → find_sink sink.name (changes cs []) ≡ none
      → sink.ops.open_op ≡ some op
      → let ss = changes cs [] in
        DistinctNames (add_sink sink ss).2
        × ((add_sink sink ss).0 ≡ success)
        × (apibus_open (add_sink sink ss).2 sink.name addr ≡ ok (some (op addr)))
  unfolding add_sink apibus_open find_sink
  changes-open cs sink op addr new has =
      let ss = changes cs [] in
      (
        add_sink-DistinctNames sink ss (changes-DistinctNames cs [] tt),
        ground (arith, new),
        ground (arith, new, has, same_text_refl sink.name),
      )
