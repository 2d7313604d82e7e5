-- ===== src/Supervisor/Exclusive.antt =====
-- The workspaces of the running jobs after one row changes.
use ownframework_loop.Prelude.{
  ℕ, suc, ◌≡◌, refl, sym, ap, subst, ◌∙◌, String, same, same_sym, mem, distinct, true, false, ◌||◌,
  some, List, [], ◌∷◌, length, arith, ◌==◌, if◌then◌else◌, Bool-cases, inl, inr,
}
use ownframework_loop.Supervisor.{Job, is_running, find_job, update_job, running_keys}

-- One more entry, anywhere.
pub data Inserted (k : String) : List String → List String → Type 0 where
  here : {ks : List String} → Inserted k ks (k ∷ ks)
  there : {ks more : List String} (x : String) → Inserted k ks more → Inserted k (x ∷ ks) (x ∷ more)

Inserted-mem :
    (k a : String) (ks more : List String)
    → Inserted k ks more
    → mem a more ≡ (mem a ks || same a k)
Inserted-mem k a ks _ here = ground arith
Inserted-mem k a _ _ (there {ks} {more} x i) = ground (arith, Inserted-mem k a ks more i)

pub Inserted-length :
    (k : String) (ks more : List String) → Inserted k ks more → length more ≡ suc (length ks)
Inserted-length k ks _ here = refl
Inserted-length k _ _ (there {ks} {more} x i) = ground (arith, Inserted-length k ks more i)

pub Inserted-distinct :
    (k : String) (ks more : List String)
    → Inserted k ks more
    → mem k ks ≡ false
    → distinct ks ≡ true
    → distinct more ≡ true
Inserted-distinct k ks _ here apart d = ground (arith, apart, d)
Inserted-distinct k _ _ (there {ks} {more} x i) apart d =
    ground (arith, Inserted-distinct k ks more i, Inserted-mem k x ks more i, same_sym x k)

pub Inserted-rest_distinct :
    (k : String) (ks more : List String)
    → Inserted k ks more
    → distinct more ≡ true
    → distinct ks ≡ true
Inserted-rest_distinct k ks _ here d = ground (arith, d)
Inserted-rest_distinct k _ _ (there {ks} {more} x i) d =
    ground (arith, Inserted-rest_distinct k ks more i, Inserted-mem k x ks more i)

pub Inserted-repeated :
    (k : String) (ks more : List String)
    → Inserted k ks more
    → mem k ks ≡ true
    → distinct more ≡ false
Inserted-repeated k ks _ here twice = ground (arith, twice)
Inserted-repeated k _ _ (there {ks} {more} x i) twice =
    ground (arith, Inserted-repeated k ks more i, Inserted-mem k x ks more i, same_sym x k)

keys_running :
    (j : Job) (js : List Job)
    → is_running j.status ≡ true
    → running_keys (j ∷ js) ≡ j.workspace_scheduling_key ∷ running_keys js
keys_running j js e = ground (arith, e)

keys_idle :
    (j : Job) (js : List Job)
    → is_running j.status ≡ false
    → running_keys (j ∷ js) ≡ running_keys js
keys_idle j js e = ground (arith, e)

Inserted-at : (k : String) (a b c d : List String) → a ≡ b → c ≡ d → Inserted k a c → Inserted k b d
Inserted-at k a b c d p q i = subst (λ x. Inserted k x d) p (subst (λ x. Inserted k a x) q i)

-- The same row in front of both.
Inserted-behind :
    (k : String) (j : Job) (js more : List Job)
    → Inserted k (running_keys js) (running_keys more)
    → Inserted k (running_keys (j ∷ js)) (running_keys (j ∷ more))
Inserted-behind k j js more i = elim (Bool-cases (is_running j.status)) [
  | inl r ↦
      Inserted-at k (j.workspace_scheduling_key ∷ running_keys js) (running_keys (j ∷ js))
        (j.workspace_scheduling_key ∷ running_keys more) (running_keys (j ∷ more))
        (sym (keys_running j js r)) (sym (keys_running j more r))
        (there j.workspace_scheduling_key i)
  | inr r ↦
      Inserted-at k (running_keys js) (running_keys (j ∷ js)) (running_keys more)
        (running_keys (j ∷ more)) (sym (keys_idle j js r)) (sym (keys_idle j more r)) i
]

-- A running row in front of one list.
Inserted-front :
    (k : String) (j i : Job) (js : List Job)
    → is_running j.status ≡ true
    → j.workspace_scheduling_key ≡ k
    → is_running i.status ≡ false
    → Inserted k (running_keys (i ∷ js)) (running_keys (j ∷ js))
Inserted-front k j i js r key idle =
    Inserted-at k (running_keys js) (running_keys (i ∷ js)) (k ∷ running_keys js)
      (running_keys (j ∷ js)) (sym (keys_idle i js idle))
      (ap (λ x. x ∷ running_keys js) (sym key) ∙ sym (keys_running j js r)) here

module _ (n : ℕ) (f : Job → Job) (cur : Job) where
  found_here :
      (j : Job) (js : List Job) → (j.id == n) ≡ true → find_job n (j ∷ js) ≡ some cur → j ≡ cur
  found_here j js e found = ground (arith, e)

  found_there :
      (j : Job) (js : List Job)
      → (j.id == n) ≡ false
      → find_job n (j ∷ js) ≡ some cur
      → find_job n js ≡ some cur
  found_there j js e found = ground (arith, e)

  updated_here : (j : Job) (js : List Job) → (j.id == n) ≡ true → update_job n f (j ∷ js) ≡ f j ∷ js
  updated_here j js e = ground (arith, e)

  updated_there :
      (j : Job) (js : List Job)
      → (j.id == n) ≡ false
      → update_job n f (j ∷ js) ≡ j ∷ update_job n f js
  updated_there j js e = ground (arith, e)

  -- An idle row that starts to run inserts its new workspace.
  pub started-Inserted :
      (js : List Job)
      → is_running cur.status ≡ false
      → is_running (f cur).status ≡ true
      → find_job n js ≡ some cur
      → Inserted
          (f cur).workspace_scheduling_key
          (running_keys js)
          (running_keys (update_job n f js))
  started-Inserted [] idle starts found = absurd (ground (arith, found))
  started-Inserted (j ∷ js) idle starts found = elim (Bool-cases (j.id == n)) [
    | inl e ↦
        subst
          (λ x.
            Inserted (f cur).workspace_scheduling_key (running_keys (x ∷ js))
              (running_keys (update_job n f (j ∷ js))))
          (sym (found_here j js e found))
          (subst
            (λ xs.
              Inserted (f cur).workspace_scheduling_key (running_keys (cur ∷ js)) (running_keys xs))
            (sym (updated_here j js e))
            (subst
              (λ x.
                Inserted (f cur).workspace_scheduling_key (running_keys (cur ∷ js))
                  (running_keys (f x ∷ js)))
              (sym (found_here j js e found))
              (Inserted-front (f cur).workspace_scheduling_key (f cur) cur js starts refl idle)))
    | inr e ↦
        subst
          (λ xs.
            Inserted (f cur).workspace_scheduling_key (running_keys (j ∷ js)) (running_keys xs))
          (sym (updated_there j js e))
          (Inserted-behind (f cur).workspace_scheduling_key j js (update_job n f js)
            (started-Inserted js idle starts (found_there j js e found)))
  ]

  -- A running row that stops takes its workspace away.
  pub stopped-Inserted :
      (js : List Job)
      → is_running cur.status ≡ true
      → is_running (f cur).status ≡ false
      → find_job n js ≡ some cur
      → Inserted cur.workspace_scheduling_key (running_keys (update_job n f js)) (running_keys js)
  stopped-Inserted [] runs stops found = absurd (ground (arith, found))
  stopped-Inserted (j ∷ js) runs stops found = elim (Bool-cases (j.id == n)) [
    | inl e ↦
        subst
          (λ xs. Inserted cur.workspace_scheduling_key (running_keys xs) (running_keys (j ∷ js)))
          (sym (updated_here j js e))
          (subst
            (λ x.
              Inserted cur.workspace_scheduling_key (running_keys (f x ∷ js))
                (running_keys (x ∷ js)))
            (sym (found_here j js e found))
            (Inserted-front cur.workspace_scheduling_key cur (f cur) js runs refl stops))
    | inr e ↦
        subst
          (λ xs. Inserted cur.workspace_scheduling_key (running_keys xs) (running_keys (j ∷ js)))
          (sym (updated_there j js e))
          (Inserted-behind cur.workspace_scheduling_key j (update_job n f js) js
            (stopped-Inserted js runs stops (found_there j js e found)))
  ]

  -- An idle row that stays idle changes nothing.
  pub idle-kept :
      (js : List Job)
      → is_running cur.status ≡ false
      → is_running (f cur).status ≡ false
      → find_job n js ≡ some cur
      → running_keys (update_job n f js) ≡ running_keys js
  idle-kept [] idle stays found = absurd (ground (arith, found))
  idle-kept (j ∷ js) idle stays found = elim (Bool-cases (j.id == n)) [
    | inl e ↦
        let is_cur = found_here j js e found in
        ap running_keys (updated_here j js e)
        ∙ keys_idle (f j) js (subst (λ x. is_running (f x).status ≡ false) (sym is_cur) stays)
        ∙ sym (keys_idle j js (subst (λ x. is_running x.status ≡ false) (sym is_cur) idle))
    | inr e ↦
        let ih = idle-kept js idle stays (found_there j js e found) in
        ap running_keys (updated_there j js e) ∙ behind j (update_job n f js) js ih
  ]
    where
      behind :
          (j : Job) (xs ys : List Job)
          → running_keys xs ≡ running_keys ys
          → running_keys (j ∷ xs) ≡ running_keys (j ∷ ys)
      behind j xs ys p =
          ap (λ ks. if is_running j.status then j.workspace_scheduling_key ∷ ks else ks) p
