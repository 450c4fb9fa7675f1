-- ===== src/Admission/Scan.antt =====
-- The scan for the first eligible waiter, and where the grant loop stops.
use allcallall_agent_runtime.Common.{
  ℕ, zero, suc, ◌≤◌, ◌<◌, ◌≡◌, sym, ◌∙◌, ap, true, false, ◌&&◌, none, some, List, [], ◌∷◌, ◌++◌,
  arith, length, ltb, All, length-append, Bool-cases, Option-cases, inl, inr, some_pair-injective,
}
use allcallall_agent_runtime.Admission.State.{Controller, Waiter, can_grant}
use allcallall_agent_runtime.Admission.Release.{
  eligible, first_eligible, award, awarded, some_waiting, grant_loop,
}

-- The waiter `w` of a deque that a scan has picked: all before it were passed over.
pub record Picked (c : Controller) (ws : List Waiter) (w : Waiter) (rest : List Waiter)
    : Type 0 where
  pub before : List Waiter
  pub after : List Waiter
  pub split : ws ≡ before ++ w ∷ after
  pub left : rest ≡ before ++ after
  pub passed : All (λ x. eligible c x ≡ false) before
  pub fits : eligible c w ≡ true

module _ (c : Controller) (x : Waiter) (xs : List Waiter) where
  first_eligible-cons_yes : eligible c x ≡ true → first_eligible c (x ∷ xs) ≡ some (x, xs)
  unfolding first_eligible
  first_eligible-cons_yes e = rw e

  first_eligible-cons_none :
      eligible c x ≡ false → first_eligible c xs ≡ none → first_eligible c (x ∷ xs) ≡ none
  unfolding first_eligible
  first_eligible-cons_none e h = rw (e, h)

  first_eligible-cons_some :
      {w : Waiter} {rest : List Waiter}
      → eligible c x ≡ false
      → first_eligible c xs ≡ some (w, rest)
      → first_eligible c (x ∷ xs) ≡ some (w, x ∷ rest)
  unfolding first_eligible
  first_eligible-cons_some e h = rw (e, h)

pub first_eligible-some :
    (c : Controller) (ws : List Waiter) {w : Waiter} {rest : List Waiter}
    → first_eligible c ws ≡ some (w, rest)
    → Picked c ws w rest
first_eligible-some c [] h = unfold first_eligible in cc
first_eligible-some c (x ∷ xs) {w} {rest} h = elim (Bool-cases (eligible c x)) [
  | inl e ↦
      let (same, tail) = some_pair-injective (sym (first_eligible-cons_yes c x xs e) ∙ h) in
      record {
        before = [];
        after = xs;
        split = ap (λ y. y ∷ xs) same;
        left = sym tail;
        passed = tt;
        fits = rw same at e;
      }
  | inr e ↦ elim (Option-cases (first_eligible c xs)) [
    | inl stuck ↦ absurd (cc (first_eligible-cons_none c x xs e stuck))
    | inr ((y, kept), found) ↦
        let (same, tail) =
          some_pair-injective (sym (first_eligible-cons_some c x xs e found) ∙ h) in
        let p = first_eligible-some c xs found in
        record {
          before = x ∷ p.before;
          after = p.after;
          split = rw (← same) (ap (λ l. x ∷ l) p.split);
          left = sym tail ∙ ap (λ l. x ∷ l) p.left;
          passed = (e, p.passed);
          fits = rw (← same) p.fits;
        }
  ]
]

pub first_eligible-none :
    (c : Controller) (ws : List Waiter)
    → first_eligible c ws ≡ none
    → All (λ x. eligible c x ≡ false) ws
first_eligible-none c [] h = tt
first_eligible-none c (x ∷ xs) h = elim (Bool-cases (eligible c x)) [
  | inl e ↦ absurd (cc (first_eligible-cons_yes c x xs e))
  | inr e ↦ elim (Option-cases (first_eligible c xs)) [
    | inl stuck ↦ (e, first_eligible-none c xs stuck)
    | inr ((y, kept), found) ↦ absurd (cc (first_eligible-cons_some c x xs e found))
  ]
]

-- No waiter that is still interested could be granted a slot.
abbrev pub IsSettled : Controller → List Waiter → Type 0
IsSettled c = All (λ w. w.cancelled ≡ false → can_grant c w.org_id ≡ false)

unsettled_none :
    (c : Controller) (ws : List Waiter) → All (λ w. eligible c w ≡ false) ws → IsSettled c ws
unsettled_none c [] h = tt
unsettled_none c (w ∷ ws) h =
    (λ open_waiter. unfold eligible can_grant in ground (arith, h.0), unsettled_none c ws h.1)

full-IsSettled :
    (c : Controller) (ws : List Waiter) → ltb c.active c.max_active ≡ false → IsSettled c ws
full-IsSettled c [] h = tt
full-IsSettled c (w ∷ ws) h = (λ _. unfold can_grant in ground arith, full-IsSettled c ws h)

pub eligible→can_grant :
    (c : Controller) (w : Waiter)
    → c.active < c.max_active
    → eligible c w ≡ true
    → can_grant c w.org_id ≡ true
unfolding eligible can_grant
eligible→can_grant c w room h = ground arith

pub Picked-length :
    {c : Controller} {ws : List Waiter} {w : Waiter} {rest : List Waiter}
    → Picked c ws w rest
    → length ws ≡ suc (length rest)
Picked-length {w = w} p =
    rw (p.split, p.left)
      (omega (arith, length-append p.before (w ∷ p.after), length-append p.before p.after))

empty-IsSettled : (c : Controller) (ws : List Waiter) → length ws ≤ 0 → IsSettled c ws
empty-IsSettled c [] h = tt
empty-IsSettled c (w ∷ ws) h = absurd (omega arith)

idle-IsSettled :
    (c : Controller) (ws : List Waiter)
    → (some_waiting ws && ltb c.active c.max_active) ≡ false
    → IsSettled c ws
idle-IsSettled c [] h = tt
idle-IsSettled c (w ∷ ws) h = full-IsSettled c (w ∷ ws) h

busy_room :
    (c : Controller)
    → (some_waiting c.waiters && ltb c.active c.max_active) ≡ true
    → c.active < c.max_active
busy_room c h = ground arith

module _ (fuel : ℕ) (c : Controller) where
  grant_loop_stop :
      (some_waiting c.waiters && ltb c.active c.max_active) ≡ false
      → grant_loop (suc fuel) c ≡ (c, [])
  unfolding grant_loop
  grant_loop_stop h = rw (h, grant_loop)

  grant_loop_stuck : first_eligible c c.waiters ≡ none → grant_loop (suc fuel) c ≡ (c, [])
  unfolding grant_loop
  grant_loop_stuck h = ground arith

  grant_loop_step :
      (w : Waiter) (rest : List Waiter)
      → (some_waiting c.waiters && ltb c.active c.max_active) ≡ true
      → first_eligible c c.waiters ≡ some (w, rest)
      → grant_loop (suc fuel) c
        ≡ ((grant_loop fuel (award w rest c)).0, awarded w ∷ (grant_loop fuel (award w rest c)).1)
  unfolding grant_loop
  grant_loop_step w rest go found = rw (go, grant_loop) (rw (found, grant_loop))

-- The rule for the loop: it stops at a settled queue, and each round picks a waiter.
module _ (P : Controller → Controller × List Waiter → Type 0)
    (stop : (c : Controller) → IsSettled c c.waiters → P c (c, []))
    (step : (c : Controller) (w : Waiter) (rest : List Waiter) (r : Controller × List Waiter)
      → Picked c c.waiters w rest
      → c.active < c.max_active
      → P (award w rest c) r
      → P c (r.0, awarded w ∷ r.1)) where
  pub grant_loop_ind :
      (fuel : ℕ) (c : Controller) → length c.waiters ≤ fuel → P c (grant_loop fuel c)
  grant_loop_ind zero c h = unfold grant_loop in stop c (empty-IsSettled c c.waiters h)
  grant_loop_ind (suc fuel) c h =
      elim (Bool-cases (some_waiting c.waiters && ltb c.active c.max_active)) [
        | inr done ↦ rw (grant_loop_stop fuel c done) (stop c (idle-IsSettled c c.waiters done))
        | inl go ↦ elim (Option-cases (first_eligible c c.waiters)) [
          | inl stuck ↦
              rw (grant_loop_stuck fuel c stuck)
                (stop c (unsettled_none c c.waiters (first_eligible-none c c.waiters stuck)))
          | inr ((w, rest), found) ↦
              let p = first_eligible-some c c.waiters found in
              rw (grant_loop_step fuel c w rest go found) (
                step c w rest _ p (busy_room c go) (
                  grant_loop_ind fuel (award w rest c)
                    (unfold award in omega (arith, Picked-length p))))
        ]
      ]
