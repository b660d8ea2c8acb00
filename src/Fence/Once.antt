-- ===== src/Fence/Once.antt =====
-- A commit becomes done once, and its descriptor is closed once (src/commit.cpp).
use cloud_desktop.Prelude.{
  ℕ, ◌≡◌, refl, sym, ap, subst, ◌∙◌, Bool, true, false, not, ◌&&◌, ◌||◌, if◌then◌else◌, none, some,
  List, [], ◌∷◌, ◌++◌, Bool-cases, inl, inr, arith,
}
use cloud_desktop.Latch.State.{CommitDoneEntry}
use cloud_desktop.Fence.{
  Event, Fences, add_waitable, close_fence_internal, done_entry, handle, handle_all, handle_events,
  on_poll_hang_up, on_poll_in, push_wait, set_fence, signal, update_overlay,
}

-- The first event that is not empty signals the fence: it does not hang up alone, and the commit
-- still exists.
unfoldable pub is_signalled : List Event → Bool
is_signalled [] = false
is_signalled (Event.polled in_ hang_up now ∷ es) =
    let rest = is_signalled es in if in_ then true else if hang_up then false else rest
is_signalled (Event.destroyed ∷ es) = false

-- Some event closes the descriptor.
unfoldable pub is_closed : Bool → List Event → Bool
is_closed added [] = false
is_closed added (Event.polled in_ hang_up now ∷ es) =
    (added && (in_ || hang_up)) || is_closed added es
is_closed added (Event.destroyed ∷ es) = true

abbrev pub only_if {ℓ} : {A : Type ℓ} → Bool → A → List A
only_if true x = x ∷ []
only_if false x = []

-- What the events leave of the list of done commits and of the closed descriptors.
pub record Leaves (entries : List CommitDoneEntry) (fds : List ℕ) (s s' : Fences) : Type 0 where
  pub done : s'.done_commits ≡ s.done_commits ++ entries
  pub closed : s'.closed ≡ fds ++ s.closed

append_nil : {A : Type 0} (xs : List A) → xs ≡ xs ++ []
append_nil [] = refl
append_nil (x ∷ xs) = ap (λ l. x ∷ l) (append_nil xs)

close-none : (s : Fences) → s.commit.commit_fence ≡ none → close_fence_internal s ≡ (false, s)
unfolding close_fence_internal
close-none s h = ground (arith, h)

-- The commit without its descriptor.
abbrev dropped : ℕ → Fences → Fences
dropped fd s = record s {
  commit = record (s.commit) { commit_fence = none };
  closed = fd ∷ s.closed;
}

close-some :
    (fd : ℕ) (s : Fences)
    → s.commit.commit_fence ≡ some fd
    → close_fence_internal s ≡ (true, dropped fd s)
unfolding close_fence_internal
close-some fd s h = ground (arith, h)

-- A closed descriptor stays closed.
handle-inert : (e : Event) (s : Fences) → s.commit.commit_fence ≡ none → handle e s ≡ s
unfolding handle handle_events on_poll_in on_poll_hang_up
handle-inert (Event.polled in_ hang_up now) s h = ground (arith, close-none s h)
handle-inert Event.destroyed s h = ap (λ p. p.1) (close-none s h)

hang_up-inert :
    (hang_up : Bool) (s : Fences)
    → s.commit.commit_fence ≡ none
    → (if hang_up then on_poll_hang_up s else s) ≡ s
unfolding on_poll_hang_up
hang_up-inert true s h = ap (λ p. p.1) (close-none s h)
hang_up-inert false s h = refl

handle_all-inert :
    (es : List Event) (s : Fences) → s.commit.commit_fence ≡ none → handle_all es s ≡ s
unfolding handle_all
handle_all-inert [] s h = refl
handle_all-inert (e ∷ es) s h = ap (handle_all es) (handle-inert e s h) ∙ handle_all-inert es s h

signal-done :
    (now : ℕ) (s : Fences)
    → ((signal now s).done_commits ≡ s.done_commits ++ done_entry s.commit ∷ [])
      × ((signal now s).closed ≡ s.closed)
      × ((signal now s).commit.commit_fence ≡ s.commit.commit_fence)
      × ((signal now s).added ≡ s.added)
unfolding signal update_overlay
signal-done now s = elim (Bool-cases s.commit.mango_nudge) [
  | inl overlay ↦ rw overlay (refl, refl, refl, refl)
  | inr silent ↦ rw silent (refl, refl, refl, refl)
]

-- What the events do to a commit that is waited for.
on_poll_in-signals :
    (now fd : ℕ) (s : Fences)
    → s.commit.commit_fence ≡ some fd
    → Leaves (done_entry s.commit ∷ []) (fd ∷ []) s (on_poll_in now s)
      × ((on_poll_in now s).commit.commit_fence ≡ none)
unfolding on_poll_in
on_poll_in-signals now fd s h =
    let x = signal-done now (dropped fd s) in
    rw (close-some fd s h) (record { done = x.0; closed = x.1 }, x.2)

on_poll_hang_up-closes :
    (fd : ℕ) (s : Fences) → s.commit.commit_fence ≡ some fd → on_poll_hang_up s ≡ dropped fd s
unfolding on_poll_hang_up
on_poll_hang_up-closes fd s h = ap (λ p. p.1) (close-some fd s h)

dropped-Leaves : (fd : ℕ) (s : Fences) → Leaves [] (fd ∷ []) s (dropped fd s)
dropped-Leaves fd s = record { done = append_nil s.done_commits; closed = refl }

handle-added :
    (in_ hang_up : Bool) (now : ℕ) (s : Fences)
    → s.added ≡ true
    → handle (Event.polled in_ hang_up now) s ≡ handle_events in_ hang_up now s
unfolding handle
handle-added in_ hang_up now s a = ap (λ b. if b then handle_events in_ hang_up now s else s) a

handle-unadded :
    (in_ hang_up : Bool) (now : ℕ) (s : Fences)
    → s.added ≡ false
    → handle (Event.polled in_ hang_up now) s ≡ s
unfolding handle
handle-unadded in_ hang_up now s a = ap (λ b. if b then handle_events in_ hang_up now s else s) a

waited-Leaves :
    (fd : ℕ) (es : List Event) (s : Fences)
    → s.added ≡ true
    → s.commit.commit_fence ≡ some fd
    → Leaves
        (only_if (is_signalled es) (done_entry s.commit))
        (only_if (is_closed true es) fd)
        s
        (handle_all es s)
unfolding handle_all is_signalled is_closed handle handle_events
waited-Leaves fd [] s a h = record { done = append_nil s.done_commits; closed = refl }
waited-Leaves fd (Event.destroyed ∷ es) s a h =
    subst (λ z. Leaves [] (fd ∷ []) s z)
      (sym
        (ap (λ p. handle_all es p.1) (close-some fd s h) ∙ handle_all-inert es (dropped fd s) refl))
      (dropped-Leaves fd s)
waited-Leaves fd (Event.polled true hang_up now ∷ es) s a h =
    let s₁ = on_poll_in now s in
    let (x, none_left) = on_poll_in-signals now fd s h in
    let hung : (if hang_up then on_poll_hang_up s₁ else s₁) ≡ s₁ =
      hang_up-inert hang_up s₁ none_left in
    subst (λ z. Leaves (done_entry s.commit ∷ []) (fd ∷ []) s z)
      (sym (
        ap (handle_all es) (handle-added true hang_up now s a ∙ hung)
        ∙ handle_all-inert es s₁ none_left))
      x
waited-Leaves fd (Event.polled false true now ∷ es) s a h =
    subst (λ z. Leaves [] (fd ∷ []) s z)
      (sym (
        ap (handle_all es) (handle-added false true now s a ∙ on_poll_hang_up-closes fd s h)
        ∙ handle_all-inert es (dropped fd s) refl))
      (dropped-Leaves fd s)
waited-Leaves fd (Event.polled false false now ∷ es) s a h =
    subst
      (λ z.
        Leaves (only_if (is_signalled es) (done_entry s.commit)) (only_if (is_closed true es) fd) s
          z)
      (sym (ap (handle_all es) (handle-added false false now s a))) (waited-Leaves fd es s a h)

-- A commit that is not waited for gets no events but its end.
unwaited-Leaves :
    (fd : ℕ) (es : List Event) (s : Fences)
    → s.added ≡ false
    → s.commit.commit_fence ≡ some fd
    → Leaves [] (only_if (is_closed false es) fd) s (handle_all es s)
unfolding handle_all is_closed handle
unwaited-Leaves fd [] s a h = record { done = append_nil s.done_commits; closed = refl }
unwaited-Leaves fd (Event.destroyed ∷ es) s a h =
    subst (λ z. Leaves [] (fd ∷ []) s z)
      (sym
        (ap (λ p. handle_all es p.1) (close-some fd s h) ∙ handle_all-inert es (dropped fd s) refl))
      (dropped-Leaves fd s)
unwaited-Leaves fd (Event.polled in_ hang_up now ∷ es) s a h =
    subst (λ z. Leaves [] (only_if (is_closed false es) fd) s z)
      (sym (ap (handle_all es) (handle-unadded in_ hang_up now s a))) (unwaited-Leaves fd es s a h)

-- The commit with its descriptor.
abbrev armed : ℕ → Bool → Fences → Fences
armed fd mango_nudge s = record s {
  commit = record (s.commit) { commit_fence = some fd; mango_nudge = mango_nudge };
}

set_fence-armed :
    (fd : ℕ) (mango_nudge : Bool) (s : Fences)
    → s.commit.commit_fence ≡ none
    → set_fence (some fd) mango_nudge s ≡ armed fd mango_nudge s
unfolding set_fence
set_fence-armed fd mango_nudge s h = ap (λ p. armed fd mango_nudge p.1) (close-none s h)

push_wait_eq :
    (fd : ℕ) (mango_nudge ready : Bool) (now : ℕ) (known_ready is_xdg : Bool) (s : Fences)
    → s.commit.commit_fence ≡ none
    → known_ready || is_xdg ≡ ready
    → push_wait (some fd) mango_nudge known_ready is_xdg now s ≡ (
        if ready
        then signal now (armed fd mango_nudge s)
        else add_waitable (armed fd mango_nudge s))
unfolding push_wait
push_wait_eq fd mango_nudge ready now known_ready is_xdg s h e =
    let s' = armed fd mango_nudge s in
    ap (λ z. if known_ready || is_xdg then signal now z else add_waitable z)
      (set_fence-armed fd mango_nudge s h)
    ∙ ap (λ b. if b then signal now s' else add_waitable s') e

push_wait-ready :
    (fd : ℕ) (mango_nudge known_ready is_xdg : Bool) (now : ℕ) (s : Fences)
    → s.commit.commit_fence ≡ none
    → known_ready || is_xdg ≡ true
    → push_wait (some fd) mango_nudge known_ready is_xdg now s ≡ signal now (armed fd mango_nudge s)
push_wait-ready fd mango_nudge known_ready is_xdg now s h ready =
    push_wait_eq fd mango_nudge true now known_ready is_xdg s h ready

push_wait-waits :
    (fd : ℕ) (mango_nudge known_ready is_xdg : Bool) (now : ℕ) (s : Fences)
    → s.commit.commit_fence ≡ none
    → known_ready || is_xdg ≡ false
    → push_wait (some fd) mango_nudge known_ready is_xdg now s
      ≡ record (armed fd mango_nudge s) { added = true }
unfolding add_waitable
push_wait-waits fd mango_nudge known_ready is_xdg now s h unknown =
    push_wait_eq fd mango_nudge false now known_ready is_xdg s h unknown

-- A new commit with a descriptor `fd` becomes done exactly once if it is known to be ready or belongs to
-- an XDG window. Otherwise it becomes done once if the first event that is not empty says that the
-- descriptor can be read, and never if that event is a hang-up alone or the end of the commit, or if
-- there is none. Its entry has its own window, id and time, the list is otherwise kept, and `fd` is
-- closed once if some event closes it (only the end of the commit where it is not waited for), and
-- not at all otherwise.
pub push_wait_once :
    (fd : ℕ) (mango_nudge known_ready is_xdg : Bool) (now : ℕ) (es : List Event) (s : Fences)
    → s.added ≡ false
    → s.commit.commit_fence ≡ none
    → Leaves
        (only_if ((known_ready || is_xdg) || is_signalled es) (done_entry s.commit))
        (only_if (is_closed (not (known_ready || is_xdg)) es) fd)
        s
        (handle_all es (push_wait (some fd) mango_nudge known_ready is_xdg now s))
push_wait_once fd mango_nudge known_ready is_xdg now es s a h =
    elim (Bool-cases (known_ready || is_xdg)) [
      | inl ready ↦
          let x = signal-done now (armed fd mango_nudge s) in
          let y = unwaited-Leaves fd es (signal now (armed fd mango_nudge s)) (x.3 ∙ a) x.2 in
          rw (push_wait-ready fd mango_nudge known_ready is_xdg now s h ready, ready)
            (record {
              done = y.done ∙ sym (append_nil _) ∙ x.0;
              closed = y.closed ∙ ap (λ l. only_if (is_closed false es) fd ++ l) x.1;
            })
      | inr unknown ↦
          let y =
            waited-Leaves fd es (record (armed fd mango_nudge s) { added = true }) refl refl in
          rw (push_wait-waits fd mango_nudge known_ready is_xdg now s h unknown, unknown)
            (record { done = y.done; closed = y.closed })
    ]
