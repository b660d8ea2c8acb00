-- ===== src/Drm/Objects.antt =====
-- The loops over the properties of all objects, and what they do to what is kept
-- (src/Backends/DRMBackend.cpp).
use cloud_desktop.Prelude.{
  ℕ, ◌≡◌, refl, sym, ap, ◌∙◌, Bool, true, false, ◌==◌, ◌||◌, Bool-cases, inl, inr, if◌then◌else◌,
  Option, none, some, List, [], ◌∷◌, ◌++◌, All, arith,
}
use cloud_desktop.Drm.Store.{
  AtomicProperty, Drm, Entry, Request, Store, commit_property, for_all, for_objects,
  rollback_property,
}
use cloud_desktop.Drm.Liftoff.{add_entries}
use cloud_desktop.Drm.Tracking.{IsMirrored, Values, is_member, value_after, value_in}

module _ (f : Option AtomicProperty → Option AtomicProperty)
    (once : (q : Option AtomicProperty) → f (f q) ≡ f q) where
  for_objects-at :
      (os : List ℕ) (st : Store) (o k : ℕ)
      → for_objects f os st o k ≡ (if is_member o os then f (st o k) else st o k)
  unfolding for_objects
  for_objects-at [] st o k = refl
  for_objects-at (x ∷ os) st o k =
      for_objects-at os (λ o' k'. if x == o' then f (st o' k') else st o' k') o k
      ∙ elim (Bool-cases (x == o)) [
        | inl here ↦ elim (Bool-cases (is_member o os)) [
          | inl again ↦ rw (here, again) (once (st o k))
          | inr last ↦ rw (here, last) refl
        ]
        | inr there ↦ rw there refl
      ]

  -- The properties of a CRTC or connector are changed.
  pub for_all-at :
      (s : Drm) (o k : ℕ)
      → is_member o s.crtcs || is_member o s.connectors ≡ true
      → (for_all f s).store o k ≡ f (s.store o k)
  unfolding for_all
  for_all-at s o k h =
      let a = for_objects-at s.crtcs s.store o k in
      let b = for_objects-at s.planes (for_objects f s.crtcs s.store) o k in
      let c =
        for_objects-at s.connectors (for_objects f s.planes (for_objects f s.crtcs s.store)) o k in
      ground (arith, a, b, c, once (s.store o k))

pub rollback_property_once :
    (q : Option AtomicProperty) → rollback_property (rollback_property q) ≡ rollback_property q
rollback_property_once none = refl
rollback_property_once (some p) = refl

pub commit_property_once :
    (q : Option AtomicProperty) → commit_property (commit_property q) ≡ commit_property q
commit_property_once none = refl
commit_property_once (some p) = refl

rollback_property-some :
    (q : Option AtomicProperty) (p : AtomicProperty)
    → rollback_property q ≡ some p
    → (r : AtomicProperty) × (q ≡ some r) × (p.current ≡ r.current) × (p.pending ≡ r.current)
rollback_property-some none p e = cc
rollback_property-some (some r) p e = (r, refl, ground arith, ground arith)

commit_property-some :
    (q : Option AtomicProperty) (p : AtomicProperty)
    → commit_property q ≡ some p
    → (r : AtomicProperty) × (q ≡ some r) × (p.current ≡ r.pending) × (p.pending ≡ r.pending)
commit_property-some none p e = cc
commit_property-some (some r) p e = (r, refl, ground arith, ground arith)

module _ (tracked : ℕ → Bool) where
  -- Entries for other objects change nothing.
  value_after-append :
      (es req : Request) (o k d : ℕ)
      → tracked o ≡ true
      → All (λ e. tracked e.object ≡ false) es
      → value_after (es ++ req) o k d ≡ value_after req o k d
  value_after-append [] req o k d h apart = refl
  value_after-append (e ∷ es) req o k d h apart = elim (Bool-cases (e.object == o)) [
    | inl same ↦
        let equal : e.object ≡ o = ground arith in
        absurd (ground (arith, apart.0, ap tracked equal))
    | inr other ↦ rw other (value_after-append es req o k d h apart.1)
  ]

  value_in-append :
      (es : List Entry) (r : Option Request) (o k d : ℕ)
      → tracked o ≡ true
      → All (λ e. tracked e.object ≡ false) es
      → value_in (elim r [ none ↦ none | some req ↦ some (es ++ req) ]) o k d ≡ value_in r o k d
  value_in-append es none o k d h apart = refl
  value_in-append es (some req) o k d h apart = value_after-append es req o k d h apart

module _ {tracked : ℕ → Bool} {v : Values} where
  -- The request is given up.
  pub rolled_back :
      (s t : Drm)
      → t.req ≡ none
      → t.crtcs ≡ s.crtcs
      → t.connectors ≡ s.connectors
      → ((o k : ℕ) → tracked o ≡ true → t.store o k ≡ rollback_property (s.store o k))
      → IsMirrored tracked v s
      → IsMirrored tracked v t
  rolled_back s t e c d same m =
      let seen =
        λ (o k : ℕ) (p : AtomicProperty) (h : tracked o ≡ true) (here : t.store o k ≡ some p).
          rollback_property-some (s.store o k) p (sym (same o k h) ∙ here) in
      record {
        current = λ o k p h here.
            let (r, was, cur, pend) = seen o k p h here in cur ∙ m.current o k r h was;
        pending = λ o k p h here.
            let (r, was, cur, pend) = seen o k p h here in rw e (pend ∙ m.current o k r h was);
        listed = λ o h. rw (c, d) (m.listed o h);
      }

  -- The kernel has taken the request.
  pub taken_over :
      (v' : Values) (s t : Drm)
      → t.req ≡ none
      → t.crtcs ≡ s.crtcs
      → t.connectors ≡ s.connectors
      → ((o k : ℕ) → tracked o ≡ true → t.store o k ≡ commit_property (s.store o k))
      → ((o k : ℕ) → tracked o ≡ true → v' o k ≡ value_in s.req o k (v o k))
      → IsMirrored tracked v s
      → IsMirrored tracked v' t
  taken_over v' s t e c d same new m =
      let seen =
        λ (o k : ℕ) (p : AtomicProperty) (h : tracked o ≡ true) (here : t.store o k ≡ some p).
          commit_property-some (s.store o k) p (sym (same o k h) ∙ here) in
      record {
        current = λ o k p h here.
            let (r, was, cur, pend) = seen o k p h here in
            cur ∙ m.pending o k r h was ∙ sym (new o k h);
        pending = λ o k p h here.
            let (r, was, cur, pend) = seen o k p h here in
            rw e (pend ∙ m.pending o k r h was ∙ sym (new o k h));
        listed = λ o h. rw (c, d) (m.listed o h);
      }

  pub add_entries-IsMirrored :
      (es : List Entry) (s : Drm)
      → All (λ e. tracked e.object ≡ false) es
      → IsMirrored tracked v s
      → IsMirrored tracked v (add_entries es s)
  add_entries-IsMirrored es s apart m = record {
    current = m.current;
    pending = λ o k p h here.
        m.pending o k p h here ∙ sym (value_in-append tracked es s.req o k (v o k) h apart);
    listed = m.listed;
  }

  -- Nothing that matters here differs.
  pub same_view :
      (s t : Drm)
      → t.store ≡ s.store
      → t.req ≡ s.req
      → t.crtcs ≡ s.crtcs
      → t.connectors ≡ s.connectors
      → IsMirrored tracked v s
      → IsMirrored tracked v t
  same_view s t a b c d m = record {
    current = rw a m.current;
    pending = rw (a, b) m.pending;
    listed = rw (c, d) m.listed;
  }
