-- ===== src/Srrp/Next.antt =====
-- `srrp_next_packet_offset` of src/srrp.c. `before` is the byte in front of `buf`, where the object
-- has one, and `mem` the memory from `buf` on, which has a NUL.
pub mod Found
use extlib.Common.{
  ℕ, zero, suc, abort, Option, none, some, Bool, true, false, not, ◌&&◌, ◌||◌, List, [], ◌∷◌, ◌==◌,
  if◌then◌else◌, Outcome, ok, fault, ◌>>=◌, get_or, Bytes,
}
use extlib.Text.{is_digit, text_at}
use extlib.Srrp.{
  request_leader, response_leader, subscribe_leader, unsubscribe_leader, publish_leader,
}

-- `strchr`, as an index into the text
unfoldable pub find_char : ℕ → Bytes → Option ℕ
find_char c [] = none
find_char c (x ∷ s) =
    let rest = find_char c s in
    if x == c then some 0 else elim rest [ none ↦ none | some i ↦ some (suc i) ]

abbrev pub is_leader : ℕ → Bool
is_leader c =
    (c == request_leader)
    || ((c == response_leader)
        || ((c == subscribe_leader) || ((c == unsubscribe_leader) || (c == publish_leader))))

-- `p[-1]`; at the start of the object there is none.
byte_before : Option ℕ → Bytes → ℕ → Outcome ℕ
byte_before before mem zero = elim before [ none ↦ fault | some c ↦ ok c ]
byte_before before mem (suc i) = ok (get_or mem i 0)

-- One of the five searches. The first place of the leader counts if no other stands before it and a
-- digit behind.
search_leader : Option ℕ → Bytes → ℕ → Outcome (Option ℕ)
unfolding byte_before
search_leader before mem leader = elim (find_char leader (text_at mem)) [
  | none ↦ ok none
  | some i ↦ do
    c ← byte_before before mem i
    ok (if not (c == leader) && is_digit (get_or mem (suc i) 0) then some i else none)
]

-- the first search that finds something
or_else : Outcome (Option ℕ) → Outcome (Option ℕ) → Outcome (Option ℕ)
or_else (ok none) r = r
or_else (ok (some i)) r = ok (some i)
or_else abort r = abort
or_else fault r = fault

-- `none` stands for -1.
unfoldable pub next_packet_offset : Option ℕ → Bytes → Outcome (Option ℕ)
unfolding or_else search_leader
next_packet_offset before [] = fault
next_packet_offset before (c ∷ []) = fault
next_packet_offset before (c ∷ d ∷ mem) =
    if is_digit d && is_leader c
    then ok (some 0)
    else or_else (search_leader before (c ∷ d ∷ mem) request_leader) (
        or_else (search_leader before (c ∷ d ∷ mem) response_leader) (
          or_else (search_leader before (c ∷ d ∷ mem) subscribe_leader) (
            or_else (search_leader before (c ∷ d ∷ mem) unsubscribe_leader)
              (search_leader before (c ∷ d ∷ mem) publish_leader))))
