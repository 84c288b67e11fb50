-- ===== src/Bus/Stations.antt =====
-- The station table of src/apix.c: no two entries have one id.
use extlib.Common.{
  ℕ, ◌+◌, ◌≤◌, ◌≡◌, refl, none, some, List, [], ◌∷◌, arith, ltb, ◌==◌, if◌then◌else◌, All,
  Bool-cases, inl, inr,
}
use extlib.Bus.{Station, find_station, touch, clear_unalive, station_alive_timeout}

abbrev pub Distinct : List Station → Type 0
Distinct [] = Unit
Distinct (s ∷ ss) = (find_station ss s.sttid ≡ none) × Distinct ss

find_station-touch-none :
    (now id k : ℕ) (ss : List Station)
    → find_station ss k ≡ none
    → find_station (touch now id ss) k ≡ none
unfolding find_station touch
find_station-touch-none now id k [] h = h
find_station-touch-none now id k (s ∷ ss) h = ground (arith, find_station-touch-none now id k ss)

pub touch-Distinct : (now id : ℕ) (ss : List Station) → Distinct ss → Distinct (touch now id ss)
unfolding touch
touch-Distinct now id [] h = h
touch-Distinct now id (s ∷ ss) (out, h) = elim (Bool-cases (s.sttid == id)) [
  | inl e ↦ rw e (out, h)
  | inr e ↦ rw e (find_station-touch-none now id s.sttid ss out, touch-Distinct now id ss h)
]

find_station-clear_unalive-none :
    (now k : ℕ) (ss : List Station)
    → find_station ss k ≡ none
    → find_station (clear_unalive now ss) k ≡ none
unfolding find_station clear_unalive
find_station-clear_unalive-none now k [] h = h
find_station-clear_unalive-none now k (s ∷ ss) h =
    ground (arith, find_station-clear_unalive-none now k ss)

pub clear_unalive-Distinct :
    (now : ℕ) (ss : List Station) → Distinct ss → Distinct (clear_unalive now ss)
unfolding clear_unalive
clear_unalive-Distinct now [] h = h
clear_unalive-Distinct now (s ∷ ss) (out, h) =
    elim (Bool-cases (ltb (s.ts_alive + station_alive_timeout) now)) [
      | inl e ↦ rw e (clear_unalive-Distinct now ss h)
      | inr e ↦
          rw e (find_station-clear_unalive-none now s.sttid ss out, clear_unalive-Distinct now ss h)
    ]

-- A look-up after `clear_unalive_station` finds what it found before, if that is still alive, and
-- otherwise nothing, as long as no two stations have one id.
pub find_station-clear_unalive :
    (now k : ℕ) (ss : List Station)
    → Distinct ss
    → find_station (clear_unalive now ss) k ≡ elim (find_station ss k) [
      | none ↦ none
      | some s ↦ if ltb (s.ts_alive + station_alive_timeout) now then none else some s
    ]
unfolding find_station clear_unalive
find_station-clear_unalive now k [] h = refl
find_station-clear_unalive now k (s ∷ ss) (out, h) = ground (
  arith,
  find_station-clear_unalive now k ss h,
  find_station-clear_unalive-none now s.sttid ss out,
)

-- The station that was just seen is the one found, with the time of that.
pub find_station-touch :
    (now k : ℕ) (ss : List Station) (s : Station)
    → find_station ss k ≡ some s
    → find_station (touch now k ss) k ≡ some (record s { ts_alive = now })
unfolding find_station touch
find_station-touch now k [] s h = cc
find_station-touch now k (t ∷ ss) s h = ground (arith, find_station-touch now k ss s)

-- Every station that is left has been alive within the time-out.
pub clear_unalive-alive :
    (now : ℕ) (ss : List Station)
    → All (λ s. now ≤ s.ts_alive + station_alive_timeout) (clear_unalive now ss)
unfolding clear_unalive
clear_unalive-alive now [] = tt
clear_unalive-alive now (s ∷ ss) =
    elim (Bool-cases (ltb (s.ts_alive + station_alive_timeout) now)) [
      | inl e ↦ rw e (clear_unalive-alive now ss)
      | inr e ↦ rw e (ground arith, clear_unalive-alive now ss)
    ]
