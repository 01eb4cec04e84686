-- ===== src/Processing/Publishing.antt =====
-- The events of the steps of `Publish::complete` of src/subscription/completion.rs.
use beave_rs.Base.{
  ℕ, zero, suc, ◌-◌, ◌<◌, ◌≡◌, refl, sym, ap, ◌∙◌, subst, arith, Bool, true, false, if◌then◌else◌,
  Option, none, some, List, [], ◌∷◌, ◌++◌, map, length, all, count_if, count_if-append, append_none,
}
use beave_rs.Base.Map.{is_some}
use beave_rs.Base.Results.{Result, ok, err}
use beave_rs.Processing.Actions.{
  Types, Event, submitted, waited, committed, acked, Action, pure, raise, ◌>>=◌, ◌>>◌, try, Ensures,
}
use beave_rs.Processing.Rules.{
  Post, ensures-pure, ensures-raise, ensures-bind, Emits, perform_emits, Tried, ensures-try,
  after_nothing, ensures-if, ensures-weaken,
}
use beave_rs.Processing.{
  Pipeline, after_attempt, retry_publish_from, retry_publish, submit, wait, wait_all, commit_state,
  ack_delivery, Submissions, submitted_first, after_submit, submit_all,
}

-- The futures of the outputs that had not reached their destination when they were submitted.
abbrev pub futures : {F : Type 0} → List (Option F) → List F
futures [] = []
futures (none ∷ cs) = futures cs
futures (some f ∷ cs) = f ∷ futures cs

abbrev pub are_done : {F : Type 0} → List (Option F) → Bool
are_done = all λ c. if is_some c then false else true

pub futures_done : {F : Type 0} (cs : List (Option F)) → are_done cs ≡ true → futures cs ≡ []
futures_done [] h = refl
futures_done (none ∷ cs) h = futures_done cs h
futures_done (some f ∷ cs) h = cc

module _ (T : Types) where
  abbrev pub submissions : List (Option T.Future) → List (Event T)
  submissions = map submitted

  abbrev pub waits : List T.Future → List (Event T)
  waits = map waited

  abbrev pub commits : Option T.Commit → List (Event T)
  commits none = []
  commits (some c) = committed c ∷ []

  abbrev pub is_ack : Event T → Bool
  is_ack (acked m) = true
  is_ack _ = false

  abbrev pub acks : List (Event T) → ℕ
  acks = count_if is_ack

  pub acks-submissions : (cs : List (Option T.Future)) → acks (submissions cs) ≡ 0
  acks-submissions [] = refl
  acks-submissions (c ∷ cs) = omega (arith, acks-submissions cs)

  pub acks-waits : (fs : List T.Future) → acks (waits fs) ≡ 0
  acks-waits [] = refl
  acks-waits (f ∷ fs) = omega (arith, acks-waits fs)

  pub acks-commits : (c : Option T.Commit) → acks (commits c) ≡ 0
  acks-commits none = refl
  acks-commits (some c) = refl

  -- Every output was submitted, or a rejection ended the loop.
  abbrev pub SubmitPost : List T.Prepared → Post T (List (Option T.Future) × Option T.BoxError)
  SubmitPost xs t (ok (cs, none)) = (t ≡ submissions cs) × (length cs ≡ length xs)
  SubmitPost xs t (ok (cs, some e)) = (t ≡ submissions cs) × (length cs < length xs)
  SubmitPost xs t (err e) = (cs : List (Option T.Future)) × (t ≡ submissions cs)

  abbrev pub WaitPost : List (Option T.Future) → Post T Unit
  WaitPost cs t (ok a) = t ≡ waits (futures cs)
  WaitPost cs t (err e) = acks t ≡ 0

module _ {T : Types} (p : Pipeline T) where
  after_attempt_emits :
      {A : Type 0} (g : A → List (Event T)) (again : T.BoxError → Action T A) (t : List (Event T))
      (r : Result T.BoxError A)
      → Tried T (Emits T g) t (ok r)
      → ((e : T.BoxError) → Ensures (again e) (Emits T g))
      → Ensures (after_attempt p again r) (λ u s. Emits T g (t ++ u) s)
  unfolding after_attempt
  after_attempt_emits g again t (ok a) h next =
      ensures-pure T (λ u s. Emits T g (t ++ u) s) a (append_none t ∙ h)
  after_attempt_emits g again t (err e) h next =
      after_nothing T (Emits T g) (after_attempt p again (err e)) t h (
        ensures-if T (Emits T g) (p.is_rejection e) (raise e) (again e)
          (λ refused_. ensures-raise T (Emits T g) e refl) (λ other. next e))

  retry_emits :
      {A : Type 0} (g : A → List (Event T)) (left : ℕ) (publish : Action T A)
      → Ensures publish (Emits T g)
      → Ensures (retry_publish_from p left publish) (Emits T g)
  unfolding retry_publish_from
  retry_emits g zero publish h =
      ensures-bind T (Tried T (Emits T g)) (Emits T g) (try publish) (after_attempt p raise)
        (ensures-try T (Emits T g) publish h)
        (λ t r q. after_attempt_emits g raise t r q λ e. ensures-raise T (Emits T g) e refl)
        (λ t e absurd. cc)
  retry_emits g (suc left) publish h =
      ensures-bind T (Tried T (Emits T g)) (Emits T g) (try publish)
        (after_attempt p λ e. retry_publish_from p left publish)
        (ensures-try T (Emits T g) publish h)
        (λ t r q.
          after_attempt_emits g (λ e. retry_publish_from p left publish) t r q
            λ e. retry_emits g left publish h)
        (λ t e absurd. cc)

  wait_post : (c : Option T.Future) → Ensures (wait p c) (Emits T λ a. waits T (futures (c ∷ [])))
  unfolding wait
  wait_post none = ensures-pure T (Emits T λ a. []) tt refl
  wait_post (some f) = perform_emits T (λ a. waited f) (p.wait f)

  wait_then :
      (c : Option T.Future) (cs : List (Option T.Future)) (t u : List (Event T))
      (r : Result T.BoxError Unit)
      → t ≡ waits T (futures (c ∷ []))
      → WaitPost T cs u r
      → WaitPost T (c ∷ cs) (t ++ u) r
  wait_then none cs t u (ok a) h k = subst (λ t. t ++ u ≡ waits T (futures cs)) (sym h) k
  wait_then (some f) cs t u (ok a) h k =
      subst (λ t. t ++ u ≡ waits T (f ∷ futures cs)) (sym h) (ap (λ u. waited f ∷ u) k)
  wait_then c cs t u (err e) h k =
      omega
        (arith, count_if-append (is_ack T) t u, ap (acks T) h, acks-waits T (futures (c ∷ [])), k)

  pub wait_all_post : (cs : List (Option T.Future)) → Ensures (wait_all p cs) (WaitPost T cs)
  unfolding wait_all
  wait_all_post [] = ensures-pure T (WaitPost T []) tt refl
  wait_all_post (c ∷ cs) =
      ensures-bind T (Emits T λ a. waits T (futures (c ∷ []))) (WaitPost T (c ∷ cs)) (wait p c)
        (λ a. wait_all p cs) (wait_post c)
        (λ t a h.
          ensures-weaken T (WaitPost T cs) (λ u r. WaitPost T (c ∷ cs) (t ++ u) r) (wait_all p cs)
            (λ u r. wait_then c cs t u r h) (wait_all_post cs))
        (λ t e h. ap (acks T) h)

  pub commit_post : (c : Option T.Commit) → Ensures (commit_state p c) (Emits T λ a. commits T c)
  unfolding commit_state
  commit_post none = ensures-pure T (Emits T λ a. []) tt refl
  commit_post (some c) = perform_emits T (λ a. committed c) (p.apply_commit c)

  pub ack_post : (m : T.Message) → Ensures (ack_delivery p m) (Emits T λ a. acked m ∷ [])
  unfolding ack_delivery
  ack_post m = perform_emits T (λ a. acked m) (p.ack m)

  submit_post : (x : T.Prepared) → Ensures (submit p x) (Emits T λ c. submitted c ∷ [])
  unfolding submit
  submit_post x = perform_emits T submitted (p.submit x)

  submitted_first_post :
      (c : Option T.Future) (x : T.Prepared) (xs : List T.Prepared)
      (rest : Action T (Submissions p))
      → Ensures rest (SubmitPost T xs)
      → Ensures (rest >>= submitted_first p c) (λ u r. SubmitPost T (x ∷ xs) (submitted c ∷ u) r)
  unfolding submitted_first
  submitted_first_post c x xs rest h =
      ensures-bind T (SubmitPost T xs) (λ u r. SubmitPost T (x ∷ xs) (submitted c ∷ u) r) rest
        (submitted_first p c) h (λ u (cs, e) k. add_first u cs e k)
        (λ u e (cs, k). (c ∷ cs, ap (λ u. submitted c ∷ u) k))
    where
      add_first :
          (u : List (Event T)) (cs : List (Option T.Future)) (e : Option T.BoxError)
          → SubmitPost T xs u (ok (cs, e))
          → Ensures
              (submitted_first p c (cs, e))
              (λ v r. SubmitPost T (x ∷ xs) (submitted c ∷ (u ++ v)) r)
      add_first u cs none (k, l) =
          ensures-pure T (λ v r. SubmitPost T (x ∷ xs) (submitted c ∷ (u ++ v)) r) (c ∷ cs, none)
            (ap (λ u. submitted c ∷ u) (append_none u ∙ k), ap suc l)
      add_first u cs (some e) (k, l) =
          ensures-pure T (λ v r. SubmitPost T (x ∷ xs) (submitted c ∷ (u ++ v)) r) (c ∷ cs, some e)
            (ap (λ u. submitted c ∷ u) (append_none u ∙ k), omega (arith, l))

  after_submit_post :
      (x : T.Prepared) (xs : List T.Prepared) (rest : Action T (Submissions p)) (t : List (Event T))
      (r : Result T.BoxError (Option T.Future))
      → Tried T (Emits T λ c. submitted c ∷ []) t (ok r)
      → Ensures rest (SubmitPost T xs)
      → Ensures (after_submit p rest r) (λ u s. SubmitPost T (x ∷ xs) (t ++ u) s)
  unfolding after_submit
  after_submit_post x xs rest t (ok c) h k =
      subst (λ t. Ensures (rest >>= submitted_first p c) (λ u s. SubmitPost T (x ∷ xs) (t ++ u) s))
        (sym h) (submitted_first_post c x xs rest k)
  after_submit_post x xs rest t (err e) h k =
      after_nothing T (SubmitPost T (x ∷ xs)) (after_submit p rest (err e)) t h (
        ensures-if T (SubmitPost T (x ∷ xs)) (p.is_rejection e) (pure ([], some e)) (raise e)
          (λ refused_. ensures-pure T (SubmitPost T (x ∷ xs)) ([], some e) (refl, omega arith))
          (λ other. ensures-raise T (SubmitPost T (x ∷ xs)) e ([], refl)))

  pub submit_all_post : (xs : List T.Prepared) → Ensures (submit_all p xs) (SubmitPost T xs)
  unfolding submit_all retry_publish
  submit_all_post [] = ensures-pure T (SubmitPost T []) ([], none) (refl, refl)
  submit_all_post (x ∷ xs) =
      let g : Option T.Future → List (Event T) = λ c. submitted c ∷ [] in
      ensures-bind T (Tried T (Emits T g)) (SubmitPost T (x ∷ xs))
        (try (retry_publish p p.publish_attempts (submit p x))) (after_submit p (submit_all p xs))
        (ensures-try T (Emits T g) (retry_publish p p.publish_attempts (submit p x))
          (retry_emits g (p.publish_attempts - 1) (submit p x) (submit_post x)))
        (λ t r h. after_submit_post x xs (submit_all p xs) t r h (submit_all_post xs))
        (λ t e absurd. cc)

  abbrev pub AckPost : T.Message → Option T.Commit → Post T Unit
  AckPost m commit t (ok a) = t ≡ commits T commit ++ acked m ∷ []
  AckPost m commit t (err e) = acks T t ≡ 0

  pub commit_and_ack_post :
      (m : T.Message) (commit : Option T.Commit)
      → Ensures (commit_state p commit >> ack_delivery p m) (AckPost m commit)
  commit_and_ack_post m commit =
      ensures-bind T (Emits T λ a. commits T commit) (AckPost m commit) (commit_state p commit)
        (λ a. ack_delivery p m) (commit_post commit)
        (λ t a h.
          ensures-weaken T (Emits T λ a. acked m ∷ []) (λ u r. AckPost m commit (t ++ u) r)
            (ack_delivery p m) (λ u r. ack_then t u r h) (ack_post m))
        (λ t e h. ap (acks T) h)
    where
      ack_then :
          (t u : List (Event T)) (r : Result T.BoxError Unit)
          → t ≡ commits T commit
          → Emits T (λ a. acked m ∷ []) u r
          → AckPost m commit (t ++ u) r
      ack_then t u (ok a) h k = cc
      ack_then t u (err e) h k = omega (
        arith,
        count_if-append (is_ack T) t u,
        ap (acks T) h,
        acks-commits T commit,
        ap (acks T) k,
      )
