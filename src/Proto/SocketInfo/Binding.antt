-- ===== src/Proto/SocketInfo/Binding.antt =====
-- `bindToAddress` of remus/proto/zmqHelper.h, for a tcp socket.
use remus.Prelude.{
  ℕ, zero, suc, ◌+◌, ◌-◌, ◌≤◌, ◌<◌, ◌≡◌, ap, sym, subst, ◌∙◌, Bool, true, false, Option, none, some,
  List, arith, if◌then◌else◌, inl, inr, Bool-cases, ==_iff, ◌==◌,
}
use remus.Proto.SocketInfo.{SocketInfo, tcp, bind_from, bind}

-- The result `r` of a search from port `i` up to `limit`, that port left out.
abbrev pub IsFirst : (ℕ → Bool) → ℕ → ℕ → Option ℕ → Type 0
IsFirst accepts i limit none = (q : ℕ) → i ≤ q → q < limit → accepts q ≡ false
IsFirst accepts i limit (some p) =
    (i ≤ p) × (p < limit) × (accepts p ≡ true) × ((q : ℕ) → i ≤ q → q < p → accepts q ≡ false)

refused :
    (accepts : ℕ → Bool) (i q limit : ℕ)
    → accepts i ≡ false
    → (i + 1 ≤ q → q < limit → accepts q ≡ false)
    → i ≤ q
    → q < limit
    → accepts q ≡ false
refused accepts i q limit e later h k = elim (Bool-cases (i == q)) [
  | inl same ↦ ap accepts (sym ((==_iff i q).0 same)) ∙ e
  | inr other ↦ later (ground (arith, h, other)) k
]

later-IsFirst :
    (accepts : ℕ → Bool) (i limit : ℕ) (r : Option ℕ)
    → accepts i ≡ false
    → IsFirst accepts (i + 1) limit r
    → IsFirst accepts i limit r
later-IsFirst accepts i limit none e v = λ q h k. refused accepts i q limit e (v q) h k
later-IsFirst accepts i limit (some p) e v =
    (omega (arith, v.0), v.1, v.2, λ q h k. refused accepts i q p e (v.3 q) h k)

bind_from-IsFirst :
    (accepts : ℕ → Bool) (left i limit : ℕ)
    → i + left ≡ limit
    → IsFirst accepts i limit (bind_from accepts left i)
unfolding bind_from
bind_from-IsFirst accepts zero i limit s = λ q h k. absurd (omega (arith, s, h, k))
bind_from-IsFirst accepts (suc left) i limit s = elim (Bool-cases (accepts i)) [
  | inl e ↦
      subst (λ b. IsFirst accepts i limit (if b then some i else bind_from accepts left (i + 1)))
        (sym e) (omega arith, omega (arith, s), e, λ q h k. absurd (omega (arith, h, k)))
  | inr e ↦
      subst (λ b. IsFirst accepts i limit (if b then some i else bind_from accepts left (i + 1)))
        (sym e)
        (later-IsFirst accepts i limit (bind_from accepts left (i + 1)) e
          (bind_from-IsFirst accepts left (i + 1) limit (omega (arith, s))))
]

-- The port of a tcp socket that was bound.
abbrev pub bound_port : Option SocketInfo → Option ℕ
bound_port (some (tcp host p)) = some p
bound_port _ = none

-- The search for a tcp port ends, for every host and every set of ports that can be bound: it yields the
-- first of those from the given one on, below 65535, and where there is none it fails.
pub bind-IsFirst :
    (accepts : ℕ → Bool) (binds : Bool) (host : List ℕ) (port : ℕ)
    → port ≤ 65535
    → IsFirst accepts port 65535 (bound_port (bind accepts binds (tcp host port)))
unfolding bind
bind-IsFirst accepts binds host port h =
    by_result (bind_from accepts (65535 - port) port)
      (bind_from-IsFirst accepts (65535 - port) port 65535 (omega (arith, h)))
  where
    by_result :
        (r : Option ℕ)
        → IsFirst accepts port 65535 r
        → IsFirst accepts port 65535
            (bound_port (elim r [ none ↦ none | some p ↦ some (tcp host p) ]))
    by_result none v = v
    by_result (some p) v = v
