-- ===== src/Parallel/Balance.antt =====
-- nodes/parallel_roles.py: the reservation's books, over a run of calls.
use allcallall_agent_runtime.Common.{
  ℕ, ◌+◌, ◌≤◌, ◌≡◌, refl, sym, subst, ap, false, not, Option, none, some, List, [], ◌∷◌, ltb,
  ltb-false, length, Bool-cases, inl, inr, arith, clash, clash_none, some-injective,
}
use allcallall_agent_runtime.Common.Eq.{◌==◌}
use allcallall_agent_runtime.Common.Dict
use allcallall_agent_runtime.Common.Dict.{Dict, get-put, get-pop}
use allcallall_agent_runtime.Common.Int.{ℤ, pos, negsuc}
use allcallall_agent_runtime.Common.Result.{Result, ok, err}
use allcallall_agent_runtime.Workflow.State.{Role}
use allcallall_agent_runtime.Workflow.Router.{has_role}
use allcallall_agent_runtime.Parallel.Reservation.{
  role_eq, Error, Reservation, is_some, acquire_within, acquire_estimate, acquire, give_back,
  release_role, release,
}

abbrev pub total : Dict Role ℕ → ℕ
total [] = 0
total ((role, n) ∷ d) = n + total d

-- Each role has one entry at most.
abbrev pub IsDistinct : Dict Role ℕ → Type 0
IsDistinct [] = Unit
IsDistinct ((role, n) ∷ d) = (Dict.get d role ≡ none) × IsDistinct d

abbrev pub IsBalanced : Reservation → Type 0
IsBalanced r =
    IsDistinct r.role_tokens
    × ((r.used_tokens ≡ total r.role_tokens)
        × ((r.used_provider_calls ≡ length r.role_tokens)
            × ((r.used_tokens ≤ r.token_budget) × (r.used_provider_calls ≤ r.provider_calls))))

role_apart : (p q : Role) → (p == q) ≡ false → (q == p) ≡ false
role_apart p q h = ground arith

put-new :
    (d : Dict Role ℕ) (role : Role) (n : ℕ)
    → Dict.get d role ≡ none
    → IsDistinct d
    → IsDistinct (Dict.put d role n)
      × ((total (Dict.put d role n) ≡ total d + n) × (length (Dict.put d role n) ≡ length d + 1))
unfolding Dict.put Dict.get
put-new [] role n h k = ((refl, tt), (omega arith, omega arith))
put-new ((q, m) ∷ d) role n h k = elim (Bool-cases (q == role)) [
  | inl e ↦ clash_none (sym (rw (e, Dict.get) at h))
  | inr e ↦
      let (distinct, (sums, counts)) = put-new d role n (rw (e, Dict.get) at h) k.1 in
      rw (e, Dict.put)
        (
          (rw (get-put d role q n, role_apart q role e) k.0, distinct),
          (omega (arith, sums), omega (arith, counts)),
        )
]

pop-absent : (d : Dict Role ℕ) (role : Role) → Dict.get d role ≡ none → Dict.pop d role ≡ d
unfolding Dict.get Dict.pop
pop-absent [] role h = refl
pop-absent ((q, m) ∷ d) role h = elim (Bool-cases (q == role)) [
  | inl e ↦ clash_none (sym (rw (e, Dict.get) at h))
  | inr e ↦ rw e (ap (λ w. (q, m) ∷ w) (pop-absent d role (rw (e, Dict.get) at h)))
]

pop-present :
    (d : Dict Role ℕ) (role : Role) (n : ℕ)
    → Dict.get d role ≡ some n
    → IsDistinct d
    → IsDistinct (Dict.pop d role)
      × ((total (Dict.pop d role) + n ≡ total d) × (length (Dict.pop d role) + 1 ≡ length d))
unfolding Dict.get Dict.pop
pop-present [] role n h k = clash_none h
pop-present ((q, m) ∷ d) role n h k = elim (Bool-cases (q == role)) [
  | inl e ↦
      let same = some-injective (rw (e, Dict.get) at h) in
      let gone =
        pop-absent d role (subst (λ p. Dict.get d p ≡ none) ((role_eq.same_iff q role).0 e) k.0) in
      rw (e, gone) (k.1, (omega (arith, same), omega arith))
  | inr e ↦
      let (distinct, (sums, counts)) = pop-present d role n (rw (e, Dict.get) at h) k.1 in
      rw e (
        (rw (get-pop d role q, role_apart q role e) k.0, distinct),
        (omega (arith, sums), omega (arith, counts)),
      )
]

-- The calls on a reservation. One that raises leaves it as it was.
pub data Call : Type 0 where
  acquiring : Role → ℤ → Call
  releasing_role : Role → Call
  releasing : Call

abbrev pub or_same : Result (Error (Unit {0})) Reservation → Reservation → Reservation
or_same (ok r') r = r'
or_same (err e) r = r

abbrev pub step : Call → Reservation → Reservation
step (acquiring role estimate) r = or_same (acquire role estimate r) r
step (releasing_role role) r = release_role role r
step releasing r = release r

abbrev pub play : List Call → Reservation → Reservation
play [] r = r
play (c ∷ cs) r = play cs (step c r)

acquire_within-IsBalanced :
    (role : Role) (tokens : ℕ) (r : Reservation)
    → Dict.get r.role_tokens role ≡ none
    → IsBalanced r
    → IsBalanced (or_same (acquire_within role tokens r) r)
unfolding acquire_within
acquire_within-IsBalanced role tokens r absent h =
    elim (Bool-cases (ltb r.token_budget (r.used_tokens + tokens))) [
      | inl e ↦ simp e h
      | inr e ↦ elim (Bool-cases (ltb r.provider_calls (r.used_provider_calls + 1))) [
        | inl f ↦ simp (e, f) h
        | inr f ↦
            let (distinct, (sums, counts)) = put-new r.role_tokens role tokens absent h.0 in
            simp (e, f)
              (
                distinct,
                (
                  omega (arith, h.1.0, sums),
                  (
                    omega (arith, h.1.1.0, counts),
                    (
                      ltb-false r.token_budget (r.used_tokens + tokens) e,
                      ltb-false r.provider_calls (r.used_provider_calls + 1) f,
                    ),
                  ),
                ),
              )
      ]
    ]

is_some-none : {A : Type 0} (o : Option A) → is_some o ≡ false → o ≡ none
is_some-none none h = refl
is_some-none (some a) h = clash refl h

acquire_estimate-IsBalanced :
    (role : Role) (estimate : ℤ) (r : Reservation)
    → Dict.get r.role_tokens role ≡ none
    → IsBalanced r
    → IsBalanced (or_same (acquire_estimate role estimate r) r)
unfolding acquire_estimate
acquire_estimate-IsBalanced role (negsuc n) r absent h = h
acquire_estimate-IsBalanced role (pos n) r absent h = acquire_within-IsBalanced role n r absent h

acquire-IsBalanced :
    (role : Role) (estimate : ℤ) (r : Reservation)
    → IsBalanced r
    → IsBalanced (or_same (acquire role estimate r) r)
unfolding acquire
acquire-IsBalanced role estimate r h = elim (Bool-cases r.released) [
  | inl e ↦ simp e h
  | inr e ↦ elim (Bool-cases (not (has_role role r.roles))) [
    | inl f ↦ simp (e, f) h
    | inr f ↦ elim (Bool-cases (is_some (Dict.get r.role_tokens role))) [
      | inl g ↦ simp (e, f, g) h
      | inr g ↦
          simp (e, f, g)
            (acquire_estimate-IsBalanced role estimate r
              (is_some-none (Dict.get r.role_tokens role) g) h)
    ]
  ]
]

give_back-IsBalanced :
    (o : Option ℕ) (role : Role) (r : Reservation)
    → Dict.get r.role_tokens role ≡ o
    → IsBalanced r
    → IsBalanced (give_back o role r)
unfolding give_back
give_back-IsBalanced none role r e h = h
give_back-IsBalanced (some n) role r e (distinct, (sums, (counts, (tokens, calls)))) =
    let (distinct', (sums', counts')) = pop-present r.role_tokens role n e distinct in
    (
      distinct',
      (
        omega (arith, sums, sums'),
        (omega (arith, counts, counts'), (omega (arith, tokens), omega (arith, calls))),
      ),
    )

release-IsBalanced : (r : Reservation) → IsBalanced r → IsBalanced (release r)
unfolding release
release-IsBalanced r h = elim (Bool-cases r.released) [
  | inl e ↦ simp e h
  | inr e ↦ simp e (tt, (refl, (refl, (omega arith, omega arith))))
]

release_role-IsBalanced :
    (role : Role) (r : Reservation) → IsBalanced r → IsBalanced (release_role role r)
unfolding release_role
release_role-IsBalanced role r h = elim (Bool-cases r.released) [
  | inl e ↦ simp e h
  | inr e ↦ simp e (give_back-IsBalanced (Dict.get r.role_tokens role) role r refl h)
]

step-IsBalanced : (c : Call) (r : Reservation) → IsBalanced r → IsBalanced (step c r)
step-IsBalanced (acquiring role estimate) r h = acquire-IsBalanced role estimate r h
step-IsBalanced (releasing_role role) r h = release_role-IsBalanced role r h
step-IsBalanced releasing r h = release-IsBalanced r h

-- Over any run of calls, those that raise included, a balanced reservation stays balanced: what it
-- has in use is the sum and the number of the roles' shares, each role has one share at most, and
-- neither budget is passed.
pub play-IsBalanced : (cs : List Call) (r : Reservation) → IsBalanced r → IsBalanced (play cs r)
play-IsBalanced [] r h = h
play-IsBalanced (c ∷ cs) r h = play-IsBalanced cs (step c r) (step-IsBalanced c r h)
