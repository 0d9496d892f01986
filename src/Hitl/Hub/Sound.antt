-- ===== src/Hitl/Hub/Sound.antt =====
-- No hint goes astray at the hub (internal/hitl/hub.go): the invariant of Hub/Steps.
use mathlib.Core.List.{Memᴰ}
use kyoci_agent.Prelude.{
  eq_ℕ, eq_String, ℕ, suc, ◌<◌, String, str_eq, str_eq_iff, ◌≡◌, refl, sym, subst, ◌∙◌, inl, inr,
  none, some, ◌∷◌, arith, Bool-cases, Option-cases, ◌==◌, ==_iff, All, All-mono, All-elim,
}
use kyoci_agent.Prelude.Map.{
  lookup, insert, delete, has, lookup-insert, lookup-insert_self, lookup-delete,
}
use kyoci_agent.Hitl.Hub.{register_waiter, remove_waiter, send_hint, receive_hint, find_waiter}
use kyoci_agent.Hitl.Hub.Steps.{
  State, start, Step, asks, looks_up, sends, receives, leaves, IsReachable, begin, next,
}

-- A hint that goes to a channel was submitted for the task of the channel.
abbrev IsMeant : State → ℕ → String → Type 0
IsMeant s channel hint =
    (task : String) × (lookup channel s.made_for ≡ some task) × Memᴰ (task, hint) s.submitted

record IsSound (s : State) : Type 0 where
  old : (c : ℕ) (task : String) → lookup c s.made_for ≡ some task → c < s.hub.next_channel
  waiter :
      (task : String) (c : ℕ) → lookup task s.hub.waiters ≡ some c → lookup c s.made_for ≡ some task
  flying : All (λ p. IsMeant s p.0 p.1) s.in_flight
  buffered : (c : ℕ) (hint : String) → lookup c s.hub.hint_buffers ≡ some hint → IsMeant s c hint
  got : All (λ p. Memᴰ p s.submitted) s.received

start-IsSound : IsSound start
unfolding lookup
start-IsSound = record {
  old = λ c task e. cc;
  waiter = λ task c e. cc;
  flying = tt;
  buffered = λ c hint e. cc;
  got = tt;
}

some_inj {ℓ} : {A : Type ℓ} (a b : A) → some a ≡ some b → a ≡ b
some_inj a b e = cc

module _ (s : State) (h : IsSound s) where
  -- A new channel leaves the old ones alone.
  kept :
      (task : String) (c : ℕ) (t : String)
      → lookup c s.made_for ≡ some t
      → lookup c (insert s.hub.next_channel task s.made_for) ≡ some t
  kept task c t e =
      rw (lookup-insert s.hub.next_channel c task s.made_for) (ground (arith, h.old c t e, e))

  asked_old :
      (task : String) (c : ℕ) (t : String)
      → lookup c (insert s.hub.next_channel task s.made_for) ≡ some t
      → c < suc s.hub.next_channel
  asked_old task c t e =
      let q = sym (lookup-insert s.hub.next_channel c task s.made_for) ∙ e in
      elim (Bool-cases (s.hub.next_channel == c)) [
        | inl b ↦ ground (arith, b)
        | inr b ↦ (let old : c < s.hub.next_channel = h.old c t (rw b at q) in omega arith)
      ]

  asked_waiter :
      (task t : String) (c : ℕ)
      → lookup t (insert task s.hub.next_channel s.hub.waiters) ≡ some c
      → lookup c (insert s.hub.next_channel task s.made_for) ≡ some t
  asked_waiter task t c e =
      let q = sym (lookup-insert task t s.hub.next_channel s.hub.waiters) ∙ e in
      elim (Bool-cases (str_eq task t)) [
        | inl b ↦
            (let same : s.hub.next_channel ≡ c = some_inj _ _ (rw b at q) in
              rw (← same, ← (str_eq_iff task t).0 b)
                (lookup-insert_self s.hub.next_channel task s.made_for))
        | inr b ↦ kept task c t (h.waiter t c (rw b at q))
      ]

  meant_kept :
      (task : String) (p : ℕ × String)
      → IsMeant s p.0 p.1
      → IsMeant (record s { made_for = insert s.hub.next_channel task s.made_for }) p.0 p.1
  meant_kept task p (t, e, m) = (t, kept task p.0 t e, m)

  asks-IsSound :
      (task : String)
      → IsSound (record s {
        hub = (register_waiter s.hub task).1;
        made_for = insert (register_waiter s.hub task).0 task s.made_for;
      })
  unfolding register_waiter
  asks-IsSound task = record {
    old = asked_old task;
    waiter = asked_waiter task;
    flying = All-mono (λ p. IsMeant s p.0 p.1) _ s.in_flight (meant_kept task) h.flying;
    buffered = λ c hint e. meant_kept task (c, hint) (h.buffered c hint e);
    got = h.got;
  }

  looks_up-IsSound :
      (task hint : String) (channel : ℕ)
      → find_waiter s.hub task ≡ some channel
      → IsSound (record s {
        submitted = (task, hint) ∷ s.submitted;
        in_flight = (channel, hint) ∷ s.in_flight;
      })
  unfolding find_waiter
  looks_up-IsSound task hint channel e = record {
    old = h.old;
    waiter = h.waiter;
    flying = (
      (task, h.waiter task channel e, Memᴰ.head refl),
      All-mono (λ p. IsMeant s p.0 p.1) _ s.in_flight (λ p (t, f, m). (t, f, Memᴰ.tail m)) h.flying,
    );
    buffered = λ c x f. (let (t, g, m) = h.buffered c x f in (t, g, Memᴰ.tail m));
    got = All-mono (λ p. Memᴰ p s.submitted) _ s.received (λ p m. Memᴰ.tail m) h.got;
  }

  sent :
      (channel : ℕ) (hint : String)
      → Memᴰ (channel, hint) s.in_flight
      → (c : ℕ) (x : String) → lookup c (insert channel hint s.hub.hint_buffers) ≡ some x
      → IsMeant s c x
  sent channel hint m c x e =
      let q = sym (lookup-insert channel c hint s.hub.hint_buffers) ∙ e in
      elim (Bool-cases (channel == c)) [
        | inl b ↦
            (let same : hint ≡ x = some_inj _ _ (rw b at q) in
              subst (λ d. IsMeant s d x) ((==_iff channel c).0 b)
                (subst (IsMeant s channel) same (All-elim (λ p. IsMeant s p.0 p.1) m h.flying)))
        | inr b ↦ h.buffered c x (rw b at q)
      ]

  sends-IsSound :
      (channel : ℕ) (hint : String)
      → Memᴰ (channel, hint) s.in_flight
      → IsSound (record s { hub = (send_hint s.hub channel hint).1 })
  unfolding send_hint
  sends-IsSound channel hint m = elim (Bool-cases (has channel s.hub.hint_buffers)) [
    | inl b ↦ rw b (record {
      old = h.old;
      waiter = h.waiter;
      flying = h.flying;
      buffered = h.buffered;
      got = h.got;
    })
    | inr b ↦ rw b (record {
      old = h.old;
      waiter = h.waiter;
      flying = h.flying;
      buffered = sent channel hint m;
      got = h.got;
    })
  ]

  taken :
      (channel : ℕ) (hint : String)
      → (receive_hint s.hub channel).0 ≡ some hint
      → lookup channel s.hub.hint_buffers ≡ some hint
  unfolding receive_hint
  taken channel hint e = elim (Option-cases (lookup channel s.hub.hint_buffers)) [
    | inl f ↦ (let q : none ≡ some hint = rw (receive_hint, f) at e in cc)
    | inr (x, f) ↦ (let q : some x ≡ some hint = rw (receive_hint, f) at e in f ∙ q)
  ]

  left_over :
      (channel c : ℕ) (x : String)
      → lookup c (delete channel s.hub.hint_buffers) ≡ some x
      → IsMeant s c x
  left_over channel c x e =
      let q = sym (lookup-delete channel c s.hub.hint_buffers) ∙ e in
      elim (Bool-cases (channel == c)) [
        | inl b ↦ (let bad : none ≡ some x = rw b at q in cc)
        | inr b ↦ h.buffered c x (rw b at q)
      ]

  -- What an agent takes was submitted for its task.
  taken_submitted :
      (task hint : String) (channel : ℕ)
      → lookup channel s.made_for ≡ some task
      → lookup channel s.hub.hint_buffers ≡ some hint
      → Memᴰ (task, hint) s.submitted
  taken_submitted task hint channel made b =
      let (t, e, m) = h.buffered channel hint b in
      subst (λ u. Memᴰ (u, hint) s.submitted) (some_inj _ _ (sym e ∙ made)) m

  receives-IsSound :
      (task hint : String) (channel : ℕ)
      → lookup channel s.made_for ≡ some task
      → (receive_hint s.hub channel).0 ≡ some hint
      → IsSound
          (record s { hub = (receive_hint s.hub channel).1; received = (task, hint) ∷ s.received })
  unfolding receive_hint
  receives-IsSound task hint channel made e =
      let b = taken channel hint e in
      rw (receive_hint, b)
        (record {
          old = h.old;
          waiter = h.waiter;
          flying = h.flying;
          buffered = left_over channel;
          got = (taken_submitted task hint channel made b, h.got);
        })

  leaves-IsSound : (task : String) → IsSound (record s { hub = remove_waiter s.hub task })
  unfolding remove_waiter
  leaves-IsSound task = record {
    old = h.old;
    waiter = λ t c e. elim (Bool-cases (str_eq task t)) [
      | inl b ↦
          (let bad : none ≡ some c = rw b at (sym (lookup-delete task t s.hub.waiters) ∙ e) in cc)
      | inr b ↦ h.waiter t c (rw b at (sym (lookup-delete task t s.hub.waiters) ∙ e))
    ];
    flying = h.flying;
    buffered = h.buffered;
    got = h.got;
  }

Step-IsSound : (s t : State) → Step s t → IsSound s → IsSound t
Step-IsSound _ _ (asks s task) h = asks-IsSound s h task
Step-IsSound _ _ (looks_up s task hint channel e) h = looks_up-IsSound s h task hint channel e
Step-IsSound _ _ (sends s channel hint m) h = sends-IsSound s h channel hint m
Step-IsSound _ _ (receives s task hint channel made e) h =
    receives-IsSound s h task hint channel made e
Step-IsSound _ _ (leaves s task) h = leaves-IsSound s h task

reachable-IsSound : (s : State) → IsReachable s → IsSound s
reachable-IsSound _ begin = start-IsSound
reachable-IsSound _ (next s t r step) = Step-IsSound s t step (reachable-IsSound s r)

-- In whatever order agents ask, leave and take hints and operators submit them, and wherever a look-up
-- and its send are apart, an agent that receives a hint receives one that an operator submitted for the
-- agent's own task.
pub received_submitted : (s : State) → IsReachable s → All (λ p. Memᴰ p s.submitted) s.received
received_submitted s r = (reachable-IsSound s r).got
