-- ===== src/Supervisor/Service.antt =====
-- Which PROGRAM was served least recently, said without the key of the code's sort, and that the sort puts it
-- first.
use ownframework_loop.Prelude.{
  ℕ, ◌≤◌, ◌<◌, ◌≡◌, refl, sym, ap, subst, ◌∙◌, true, false, ◌&&◌, ◌⊎◌, inl, inr, List, [], ◌∷◌,
  arith, Bool-cases, All,
}
use ownframework_loop.Supervisor.{JobStatus, Mode, queued, backoff, program_mode, Job, is_waiting}
use ownframework_loop.Supervisor.Claims.{
  is_due, is_program, filter, insert_fair, fair_order, fair_before,
}

-- One job was served before another: by a smaller dispatch number, then by an earlier creation, then by
-- a smaller id.
pub data IsServedBefore (a b : Job) : Type 0 where
  earlier : a.last_dispatch_sequence < b.last_dispatch_sequence → IsServedBefore a b
  older :
      a.last_dispatch_sequence ≡ b.last_dispatch_sequence
      → a.created_at < b.created_at
      → IsServedBefore a b
  smaller :
      a.last_dispatch_sequence ≡ b.last_dispatch_sequence
      → a.created_at ≡ b.created_at
      → a.id < b.id
      → IsServedBefore a b

-- A PROGRAM that waits and whose time has come.
pub record IsDueProgram (now : ℕ) (j : Job) : Type 0 where
  pub mode : j.execution_mode ≡ program_mode
  pub waits : (j.status ≡ queued) ⊎ (j.status ≡ backoff)
  pub is_time : j.next_attempt_at ≤ now

-- Each PROGRAM that is due is `p`, or `p` was served before it.
unfoldable pub IsLeastServed : ℕ → Job → List Job → Type 0
IsLeastServed now p = All (λ q. IsDueProgram now q → (q ≡ p) ⊎ IsServedBefore p q)

served_before-fair_before :
    (a b : Job) → IsServedBefore a b → (fair_before a b ≡ true) × (fair_before b a ≡ false)
served_before-fair_before a b (earlier s) = (ground arith, ground arith)
served_before-fair_before a b (older s c) = (ground arith, ground arith)
served_before-fair_before a b (smaller s c i) = (ground arith, ground arith)

fair_before_irrefl : (a : Job) → fair_before a a ≡ false
fair_before_irrefl a = ground arith

-- The head of the sorted list, where `p` is among the jobs and the others were served after it.
insert_first :
    (p : Job) (js : List Job)
    → All (λ q. (q ≡ p) ⊎ IsServedBefore p q) js
    → insert_fair p js ≡ p ∷ js
insert_first p [] h = refl
insert_first p (q ∷ js) (inl e, hs) =
    let equal : fair_before q p ≡ false =
      subst (λ x. fair_before x p ≡ false) (sym e) (fair_before_irrefl p) in
    ground (arith, equal)
insert_first p (q ∷ js) (inr s, hs) = ground (arith, served_before-fair_before p q s)

insert-All :
    (P : Job → Type 0) (a : Job) (bs : List Job) → P a → All P bs → All P (insert_fair a bs)
insert-All P a [] p ps = (p, tt)
insert-All P a (b ∷ bs) p (pb, ps) = elim (Bool-cases (fair_before b a)) [
  | inl e ↦ subst (All P) (sym (insert_past e)) (pb, insert-All P a bs p ps)
  | inr e ↦ subst (All P) (sym (insert_before e)) (p, (pb, ps))
]
  where
    insert_past : fair_before b a ≡ true → insert_fair a (b ∷ bs) ≡ b ∷ insert_fair a bs
    insert_past e = ground (arith, e)

    insert_before : fair_before b a ≡ false → insert_fair a (b ∷ bs) ≡ a ∷ b ∷ bs
    insert_before e = ground (arith, e)

fair-All : (P : Job → Type 0) (js : List Job) → All P js → All P (fair_order js)
fair-All P [] ps = tt
fair-All P (j ∷ js) (p, ps) = insert-All P j (fair_order js) p (fair-All P js ps)

pub data IsAmong (p : Job) : List Job → Type 0 where
  here : {js : List Job} → IsAmong p (p ∷ js)
  there : {j : Job} {js : List Job} → IsAmong p js → IsAmong p (j ∷ js)

fair_order-head :
    (p : Job) (js : List Job)
    → IsAmong p js
    → All (λ q. (q ≡ p) ⊎ IsServedBefore p q) js
    → (ps : List Job) × (fair_order js ≡ p ∷ ps)
fair_order-head p [] m h = elim m [ ]
fair_order-head p (_ ∷ js) here (h, hs) = (
  fair_order js,
  insert_first p (fair_order js) (fair-All (λ q. (q ≡ p) ⊎ IsServedBefore p q) js hs),
)
fair_order-head p (q ∷ js) (there m) (inl e, hs) = (
  fair_order js,
  subst (λ x. insert_fair x (fair_order js) ≡ p ∷ fair_order js) (sym e)
      (insert_first p (fair_order js) (fair-All (λ q. (q ≡ p) ⊎ IsServedBefore p q) js hs)),
)
fair_order-head p (q ∷ js) (there m) (inr s, hs) =
    let (ps, e) = fair_order-head p js m hs in
    let past : fair_before p q ≡ true = (served_before-fair_before p q s).0 in
    (insert_fair q ps, ap (insert_fair q) e ∙ ground (arith, past))

pub waiting-cases : (s : JobStatus) → is_waiting s ≡ true → (s ≡ queued) ⊎ (s ≡ backoff)
waiting-cases queued h = inl refl
waiting-cases backoff h = inr refl
waiting-cases s h = absurd (ground (arith, h))

program_mode_of : (j : Job) → is_program j ≡ true → j.execution_mode ≡ program_mode
program_mode_of j h = by_mode j.execution_mode refl
  where
    by_mode : (m : Mode) → j.execution_mode ≡ m → m ≡ program_mode
    by_mode program_mode e = refl
    by_mode m e = absurd (ground (arith, h, e))

selected-IsDueProgram :
    (now : ℕ) (j : Job) → is_due now j ≡ true → is_program j ≡ true → IsDueProgram now j
selected-IsDueProgram now j due program = record {
  mode = program_mode_of j program;
  waits = waiting-cases j.status (ground (arith, due));
  is_time = ground (arith, due);
}

is_due_program :
    (now : ℕ) (j : Job) → IsDueProgram now j → (is_due now j ≡ true) × (is_program j ≡ true)
is_due_program now j d = elim d.waits [
  | inl q ↦ (ground (arith, q, d.is_time), ground (arith, d.mode))
  | inr b ↦ (ground (arith, b, d.is_time), ground (arith, d.mode))
]

-- The programs that are due, in the order of the rows.
abbrev pub due_rows : ℕ → List Job → List Job
due_rows now js = filter is_program (filter (is_due now) js)

due_rows-cases :
    (now : ℕ) (j : Job) (js : List Job)
    → ((due_rows now (j ∷ js) ≡ due_rows now js) × ((is_due now j && is_program j) ≡ false))
      ⊎ ((due_rows now (j ∷ js) ≡ j ∷ due_rows now js)
          × (is_due now j ≡ true)
          × (is_program j ≡ true))
due_rows-cases now j js = elim (Bool-cases (is_due now j)) [
  | inr late ↦ inl (ground (arith, late), ground (arith, late))
  | inl due ↦ elim (Bool-cases (is_program j)) [
    | inr other ↦ inl (ground (arith, due, other), ground (arith, other))
    | inl program ↦ inr (ground (arith, due, program), due, program)
  ]
]

due_rows-IsAmong :
    (now : ℕ) (p : Job) (js : List Job)
    → IsAmong p js
    → IsDueProgram now p
    → IsAmong p (due_rows now js)
due_rows-IsAmong now p [] m d = elim m [ ]
due_rows-IsAmong now p (_ ∷ js) here d = elim (due_rows-cases now p js) [
  | inl (e, out) ↦ absurd (ground (arith, out, is_due_program now p d))
  | inr (e, due, program) ↦ subst (IsAmong p) (sym e) here
]
due_rows-IsAmong now p (j ∷ js) (there m) d = elim (due_rows-cases now j js) [
  | inl (e, out) ↦ subst (IsAmong p) (sym e) (due_rows-IsAmong now p js m d)
  | inr (e, due, program) ↦ subst (IsAmong p) (sym e) (there (due_rows-IsAmong now p js m d))
]

due_rows-All :
    (now : ℕ) (p : Job) (js : List Job)
    → IsLeastServed now p js
    → All (λ q. (q ≡ p) ⊎ IsServedBefore p q) (due_rows now js)
unfolding IsLeastServed
due_rows-All now p [] h = tt
due_rows-All now p (j ∷ js) (h, hs) =
    let after : Job → Type 0 = λ q. (q ≡ p) ⊎ IsServedBefore p q in
    elim (due_rows-cases now j js) [
      | inl (e, out) ↦ subst (All after) (sym e) (due_rows-All now p js hs)
      | inr (e, due, program) ↦
          subst (All after) (sym e)
            (h (selected-IsDueProgram now j due program), due_rows-All now p js hs)
    ]

-- The least recently served of the programs that are due is the first of the sorted ones.
pub fair_order-due_rows :
    (now : ℕ) (p : Job) (js : List Job)
    → IsAmong p js
    → IsDueProgram now p
    → IsLeastServed now p js
    → (ps : List Job) × (fair_order (due_rows now js) ≡ p ∷ ps)
fair_order-due_rows now p js m d h =
    fair_order-head p (due_rows now js) (due_rows-IsAmong now p js m d) (due_rows-All now p js h)
