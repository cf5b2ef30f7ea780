-- ===== src/Transfer/Histories.antt =====
-- The histories of a transfer, src/libvalent/core/valent-transfer.c.
use valent.Prelude.{
  ℕ, suc, ◌≡◌, inl, inr, refl, sym, ap, subst, ◌∙◌, Bool, true, false, Option, none, some, String,
  Bool-cases,
}
use valent.Transfer.{
  TransferState, pending, active, complete, failed, Doubles, Transfer, is_pending,
  already_in_progress, dup_id, set_progress, finish_with, execute_cb, execute, cancel,
  caller_cancels, check_status,
}

-- What the state tells of the calls of the operation and the error.
abbrev pub Agrees : {Error : Type 0} → TransferState → ℕ → Option Error → Type 0
Agrees pending executed error = (executed ≡ 0) × (error ≡ none)
Agrees active executed error = (executed ≡ 1) × (error ≡ none)
Agrees complete executed error = (executed ≡ 1) × (error ≡ none)
Agrees failed executed error = (executed ≡ 1) × ((e : _) × (error ≡ some e))

pending_of : (s : TransferState) → is_pending s ≡ true → s ≡ pending
pending_of pending h = refl
pending_of active h = cc
pending_of complete h = cc
pending_of failed h = cc

-- The state of a transfer that is over.
abbrev pub is_over : TransferState → Bool
is_over pending = false
is_over active = false
is_over complete = true
is_over failed = true

over_not_pending : (s : TransferState) → is_over s ≡ true → is_pending s ≡ false
over_not_pending pending h = cc
over_not_pending active h = refl
over_not_pending complete h = refl
over_not_pending failed h = refl

module _ {f : Doubles} {Error : Type 0} where
  -- What happens to a transfer; its operation ends only while the transfer is active.
  pub data Step (t : Transfer f Error) : Transfer f Error → Type 0 where
    executes : (cancellable : Option Bool) → Step t (execute cancellable t).1
    ends : (result : Option Error) → t.state ≡ active → Step t (execute_cb result t)
    progresses : (progress : f.Double) → Step t (set_progress progress t)
    cancels : Step t (cancel t)
    caller_cancels_it : Step t (caller_cancels t)
    identifies : (uuid : String) → Step t (dup_id uuid t).1

  pub data History (t : Transfer f Error) : Transfer f Error → Type 0 where
    start : History t t
    step : {u v : Transfer f Error} → History t u → Step u v → History t v

  abbrev pub IsLawful : Transfer f Error → Type 0
  IsLawful t = Agrees t.state t.executed t.error

  -- The fields that the other operations leave.
  abbrev pub Same : Transfer f Error → Transfer f Error → Type 0
  Same t u = (u.state ≡ t.state) × (u.executed ≡ t.executed) × (u.error ≡ t.error)

  set_progress-Same :
      (progress : f.Double) (t : Transfer f Error) → Same t (set_progress progress t)
  unfolding set_progress
  set_progress-Same progress t = elim (Bool-cases (f.in_range progress)) [
    | inl i ↦ elim (Bool-cases (f.approx t.progress progress)) [
      | inl a ↦ rw (i, a) (refl, refl, refl)
      | inr a ↦ rw (i, a) (refl, refl, refl)
    ]
    | inr i ↦ rw i (refl, refl, refl)
  ]

  caller_cancels-Same : (t : Transfer f Error) → Same t (caller_cancels t)
  unfolding caller_cancels cancel
  caller_cancels-Same t = elim (Bool-cases t.connected) [
    | inl c ↦ rw c (refl, refl, refl)
    | inr c ↦ rw c (refl, refl, refl)
  ]

  Same-IsLawful : (t u : Transfer f Error) → Same t u → IsLawful t → IsLawful u
  Same-IsLawful t u (s, n, e) h = rw (s, n, e) h

  executed_lem :
      (t : Transfer f Error) (cancellable : Option Bool)
      → IsLawful t
      → IsLawful (execute cancellable t).1
  unfolding execute
  executed_lem t cancellable h = elim (Bool-cases (is_pending t.state)) [
    | inl p ↦
        let r = subst (λ s. Agrees s t.executed t.error) (pending_of t.state p) h in
        rw p (ap suc r.0, r.1)
    | inr p ↦ rw p h
  ]

  finished_lem :
      (result : Option Error) (t : Transfer f Error)
      → t.state ≡ active
      → IsLawful t
      → IsLawful (finish_with result t)
  finished_lem none t running h = subst (λ s. Agrees s t.executed t.error) running h
  finished_lem (some e) t running h =
      ((subst (λ s. Agrees s t.executed t.error) running h).0, (e, refl))

  Step-IsLawful : {t u : Transfer f Error} → Step t u → IsLawful t → IsLawful u
  unfolding execute_cb cancel dup_id
  Step-IsLawful {t} (executes cancellable) h = executed_lem t cancellable h
  Step-IsLawful {t} (ends result running) h =
      let same = set_progress-Same f.one t in
      finished_lem result (set_progress f.one t) (same.0 ∙ running)
        (Same-IsLawful t (set_progress f.one t) same h)
  Step-IsLawful {t} (progresses progress) h =
      Same-IsLawful t (set_progress progress t) (set_progress-Same progress t) h
  Step-IsLawful {t} cancels h = h
  Step-IsLawful {t} caller_cancels_it h =
      Same-IsLawful t (caller_cancels t) (caller_cancels-Same t) h
  Step-IsLawful {t} (identifies uuid) h = h

  -- In every history of a transfer that begins pending, with no error and its operation not called,
  -- the operation is called at most once: not while the transfer is pending, and once when it is
  -- active, complete or failed; there is an error exactly when it has failed.
  pub History-IsLawful :
      (t u : Transfer f Error)
      → t.state ≡ pending
      → t.executed ≡ 0
      → t.error ≡ none
      → History t u
      → IsLawful u
  History-IsLawful t u s n e start = rw (s, n, e) (refl, refl)
  History-IsLawful t u s n e (step {u = v} history last) =
      Step-IsLawful last (History-IsLawful t v s n e history)

  execute_over :
      (t : Transfer f Error) (cancellable : Option Bool)
      → is_over t.state ≡ true
      → execute cancellable t ≡ (already_in_progress, t)
  unfolding execute
  execute_over t cancellable over = rw (over_not_pending t.state over) refl

  Step-over : {t u : Transfer f Error} → Step t u → is_over t.state ≡ true → Same t u
  unfolding cancel dup_id
  Step-over {t} (executes cancellable) over =
      rw (execute_over t cancellable over) (refl, refl, refl)
  Step-over {t} (ends result running) over = let bad = sym over ∙ ap is_over running in cc
  Step-over {t} (progresses progress) over = set_progress-Same progress t
  Step-over {t} cancels over = (refl, refl, refl)
  Step-over {t} caller_cancels_it over = caller_cancels-Same t
  Step-over {t} (identifies uuid) over = (refl, refl, refl)

  -- A transfer that is complete or has failed stays so, with the same error and without another call
  -- of its operation, whatever happens to it, and an execution of it is refused.
  pub History-over :
      (t u : Transfer f Error) (cancellable : Option Bool)
      → is_over t.state ≡ true
      → History t u
      → Same t u
        × (check_status u ≡ check_status t)
        × (execute cancellable u ≡ (already_in_progress, u))
  unfolding check_status
  History-over t u cancellable over start =
      ((refl, refl, refl), refl, execute_over t cancellable over)
  History-over t u cancellable over (step {u = v} history last) =
      let (same, status, refused) = History-over t v cancellable over history in
      let over' = ap is_over same.0 ∙ over in
      let next = Step-over last over' in
      (
        (next.0 ∙ same.0, next.1 ∙ same.1, next.2 ∙ same.2),
        next.2 ∙ same.2,
        execute_over u cancellable (ap is_over next.0 ∙ over'),
      )
