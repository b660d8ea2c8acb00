-- ===== src/Drm/Tracking.antt =====
-- What is kept of the properties, and the request (src/Backends/DRMBackend.cpp).
use cloud_desktop.Prelude.{
  ℕ, ◌≡◌, refl, subst, Bool, true, false, not, ◌==◌, ◌&&◌, ◌||◌, Bool-cases, inl, inr,
  if◌then◌else◌, Option, none, some, List, [], ◌∷◌, arith,
}
use cloud_desktop.Drm.Store.{
  AtomicProperty, Drm, Entry, Fails, Request, put, set_in, set_pending_value, set_property,
}

-- The values of properties as the kernel has them.
abbrev pub Values : Type 0
Values = ℕ → ℕ → ℕ

-- The last value in the request, or the value that there was.
abbrev pub value_after : Request → ℕ → ℕ → ℕ → ℕ
value_after [] o k d = d
value_after (e ∷ es) o k d =
    if e.object == o && e.property == k then e.value else value_after es o k d

abbrev pub value_in : Option Request → ℕ → ℕ → ℕ → ℕ
value_in none o k d = d
value_in (some req) o k d = value_after req o k d

abbrev pub is_member : ℕ → List ℕ → Bool
is_member o [] = false
is_member o (x ∷ xs) = x == o || is_member o xs

-- For each tracked object: the current value of a property is the kernel's, and the pending one is what
-- the request makes of it. `tracked` are objects that the loops over the properties reach.
pub record IsMirrored (tracked : ℕ → Bool) (v : Values) (s : Drm) : Type 0 where
  pub current :
      (o k : ℕ) (p : AtomicProperty) → tracked o ≡ true → s.store o k ≡ some p → p.current ≡ v o k
  pub pending :
      (o k : ℕ) (p : AtomicProperty)
      → tracked o ≡ true
      → s.store o k ≡ some p
      → p.pending ≡ value_in s.req o k (v o k)
  pub listed : (o : ℕ) → tracked o ≡ true → is_member o s.crtcs || is_member o s.connectors ≡ true

module _ {tracked : ℕ → Bool} {v : Values} where
  -- What is seen at a place after a property was put at another or the same place.
  put-IsMirrored :
      (s : Drm) (o k value : ℕ) (p : AtomicProperty) (req : Request)
      → s.req ≡ some req
      → s.store o k ≡ some p
      → IsMirrored tracked v s
      → IsMirrored tracked v (record s {
        store = put s.store o k (record p { pending = value });
        req = some (record { object = o; property = k; value = value } ∷ req);
      })
  put-IsMirrored s o k value p req begun here m = record {
    current = λ o' k' p' t e. elim (Bool-cases (o == o' && k == k')) [
      | inl same ↦ ground (arith, m.current o k p)
      | inr apart ↦ m.current o' k' p' t (rw apart at e)
    ];
    pending = λ o' k' p' t e. elim (Bool-cases (o == o' && k == k')) [
      | inl same ↦ rw same (ground arith)
      | inr apart ↦ rw apart (ground (arith, m.pending o' k' p'))
    ];
    listed = m.listed;
  }

  set_in-IsMirrored :
      (fails : Fails) (o k value : ℕ) (forced : Bool) (r : Option Request)
      (q : Option AtomicProperty) (s : Drm)
      → s.req ≡ r
      → s.store o k ≡ q
      → IsMirrored tracked v s
      → IsMirrored tracked v (set_in fails o k value forced r q s)
  unfolding set_pending_value
  set_in-IsMirrored fails o k value forced none q s begun here m = m
  set_in-IsMirrored fails o k value forced (some req) none s begun here m = m
  set_in-IsMirrored fails o k value forced (some req) (some p) s begun here m =
      let entry : Entry = record { object = o; property = k; value = value } in
      let same : IsMirrored tracked v (record s { req = some req }) = record {
        current = m.current;
        pending =
            subst
              (λ r.
                (o' k' : ℕ) (p' : AtomicProperty)
                → tracked o' ≡ true
                → s.store o' k' ≡ some p'
                → p'.pending ≡ value_in r o' k' (v o' k'))
              begun m.pending;
        listed = m.listed;
      } in
      elim (Bool-cases (value == p.pending && not forced)) [
        | inl skipped ↦ rw skipped same
        | inr wanted ↦ elim (Bool-cases (fails req entry)) [
          | inl failed ↦ rw (wanted, failed) same
          | inr added ↦ rw (wanted, added) (put-IsMirrored s o k value p req begun here m)
        ]
      ]

  pub set_property-IsMirrored :
      (fails : Fails) (o k value : ℕ) (forced : Bool) (s : Drm)
      → IsMirrored tracked v s
      → IsMirrored tracked v (set_property fails o k value forced s)
  unfolding set_property
  set_property-IsMirrored fails o k value forced s m =
      set_in-IsMirrored fails o k value forced s.req (s.store o k) s refl refl m
