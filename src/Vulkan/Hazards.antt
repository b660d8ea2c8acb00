-- ===== src/Vulkan/Hazards.antt =====
-- The barriers of CVulkanCmdBuffer (src/rendervulkan.cpp) suffice: no command touches an image whose
-- last write was not waited for, and ending a buffer does not fail.
use cloud_desktop.Prelude.{
  ◌>>=◌, some-bind, some-else, ℕ, ◌≡◌, refl, sym, ◌∙◌, true, false, not, ◌&&◌, ◌==◌, some, List, [],
  ◌∷◌, All, Bool-cases, Option-cases, inl, inr, arith, subst, ap,
}
use cloud_desktop.Vulkan.Images.{
  Command, Queues, Recording, TextureState, discard_image, is_prepared, mark_dirty,
  prepare_dest_image, prepare_src_image, set_dirty, recorded, with_state, fresh_state,
}
use cloud_desktop.Vulkan.Record.{
  add_dependency, add_signal, insert_barrier, prepare_all, record_write, bind_target, bind_texture,
  set_slot, copy_buffer_to_image, copy_image, dispatch,
}
use cloud_desktop.Vulkan.Calls.{Call, run_call, run_calls, overlap, is_among, add_write, unsynced}
use cloud_desktop.Vulkan.Barriers.{
  IsImported, is_dirty, barrier_loop-Synced, AllDirty, Tracked, remove_flushed-all, AllDirty-cons,
}

-- What a call that prepares an image keeps: the commands, and what is dirty.
record Prepares (r r' : Recording) : Type 0 where
  same_commands : r'.buffer.commands ≡ r.buffer.commands
  dirty : (ws : List ℕ) → AllDirty r.buffer.texture_state ws → AllDirty r'.buffer.texture_state ws

prepare_src_image-Prepares :
    (image : ℕ) (r r' : Recording) → prepare_src_image image r ≡ some r' → Prepares r r'
unfolding prepare_src_image
prepare_src_image-Prepares image r r' e =
    elim (Bool-cases (is_prepared image r.buffer.texture_state)) [
      | inl old ↦
          let same : r ≡ r' = ground arith in
          subst (λ z. Prepares r z) same (record { same_commands = refl; dirty = λ ws h. h })
      | inr new ↦ elim (Bool-cases (r.textures image).output_image) [
        | inl output ↦ absurd (ground arith)
        | inr other ↦
            let added =
              with_state
                ((
                  image,
                  record fresh_state {
                    needs_import = (r.textures image).external_image;
                    needs_export = (r.textures image).external_image;
                  },
                )
                  ∷ r.buffer.texture_state)
                r in
            let same : added ≡ r' = ground arith in
            subst (λ z. Prepares r z) same
              (record { same_commands = refl; dirty = λ ws h. AllDirty-cons _ _ ws h })
      ]
    ]

prepare_all-Prepares :
    (images : List ℕ) (r r' : Recording) → prepare_all images r ≡ some r' → Prepares r r'
unfolding prepare_all
prepare_all-Prepares [] r r' e =
    let same : r ≡ r' = ground arith in
    subst (λ z. Prepares r z) same (record { same_commands = refl; dirty = λ ws h. h })
prepare_all-Prepares (image ∷ images) r r' e = elim (Option-cases (prepare_src_image image r)) [
  | inl failed ↦ absurd (ground arith)
  | inr (r₁, e₁) ↦
      let rest : prepare_all images r₁ ≡ some r' =
        subst (λ o. (o >>= prepare_all images) ≡ some r') e₁ e in
      let x = prepare_src_image-Prepares image r r₁ e₁ in
      let y = prepare_all-Prepares images r₁ r' rest in
      record {
        same_commands = y.same_commands ∙ x.same_commands;
        dirty = λ ws h. y.dirty ws (x.dirty ws h);
      }
]

prepare_dest_image-Prepares : (image : ℕ) (r : Recording) → Prepares r (prepare_dest_image image r)
unfolding prepare_dest_image
prepare_dest_image-Prepares image r = elim (Bool-cases (is_prepared image r.buffer.texture_state)) [
  | inl old ↦ rw old (record { same_commands = refl; dirty = λ ws h. h })
  | inr new ↦ rw new (record { same_commands = refl; dirty = λ ws h. AllDirty-cons _ _ ws h })
]

set_dirty-is_dirty :
    (image : ℕ) (ts : List (ℕ × TextureState))
    → is_prepared image ts ≡ true
    → is_dirty (set_dirty image ts) image ≡ true
unfolding is_prepared set_dirty is_dirty
set_dirty-is_dirty image [] h = cc
set_dirty-is_dirty image ((i, s) ∷ ts) h = elim (Bool-cases (i == image)) [
  | inl here ↦ rw here (ground arith)
  | inr there ↦ rw there (ground (arith, set_dirty-is_dirty image ts (ground arith)))
]

set_dirty-IsImported :
    (image : ℕ) (ts : List (ℕ × TextureState))
    → All IsImported ts
    → All IsImported (set_dirty image ts)
unfolding set_dirty
set_dirty-IsImported image [] h = tt
set_dirty-IsImported image ((i, s) ∷ ts) (x, h) = elim (Bool-cases (i == image)) [
  | inl here ↦ rw here (x, h)
  | inr there ↦ rw there (x, set_dirty-IsImported image ts h)
]

overlap_none : (is : List ℕ) → overlap is [] ≡ false
unfolding overlap is_among
overlap_none [] = refl
overlap_none (i ∷ is) = overlap_none is

pub insert_barrier-Synced :
    (q : Queues) (r : Recording) (ws : List ℕ)
    → unsynced r.buffer.commands ≡ some ws
    → AllDirty r.buffer.texture_state ws
    → (r' : Recording) × (insert_barrier q false r ≡ some r')
      × All IsImported r'.buffer.texture_state
      × (unsynced r'.buffer.commands ≡ some [])
unfolding insert_barrier unsynced
insert_barrier-Synced q r ws s h =
    let (p, e, x) = barrier_loop-Synced q r.buffer.texture_state r.textures in
    (
      record {
        buffer = record (r.buffer) {
          texture_state = p.states;
          commands = Command.pipeline_barrier p.barriers ∷ r.buffer.commands;
        };
        textures = p.textures;
      },
      rw e refl,
      x.imported,
      rw (s, remove_flushed-all r.buffer.texture_state p ws x h) refl,
    )

-- Marking the image that a command writes, whose recording finds nothing to wait for.
mark_dirty-Tracked :
    (images : List ℕ) (target : ℕ) (c : Command) (r r' : Recording)
    → ((cs : List Command) → unsynced (c ∷ cs) ≡ (unsynced cs >>= add_write images target))
    → All IsImported r.buffer.texture_state
    → unsynced r.buffer.commands ≡ some []
    → mark_dirty target (recorded c r) ≡ some r'
    → Tracked r'
unfolding mark_dirty
mark_dirty-Tracked images target c r r' writes imported none_left e =
    let ts = r.buffer.texture_state in
    elim (Bool-cases (is_prepared target ts)) [
      | inr unknown ↦ absurd (ground arith)
      | inl known ↦
          let marked = with_state (set_dirty target ts) (recorded c r) in
          let same : marked ≡ r' = ground arith in
          subst (λ z. Tracked z) same
            (record {
              imported = set_dirty-IsImported target ts imported;
              writes = target ∷ [];
              synced =
                  writes r.buffer.commands ∙ rw (none_left, overlap_none (target ∷ images)) refl;
              known = (set_dirty-is_dirty target ts known, tt);
            })
    ]

record_write-Tracked :
    (q : Queues) (images : List ℕ) (target : ℕ) (c : Command) (r r' : Recording)
    → ((cs : List Command) → unsynced (c ∷ cs) ≡ (unsynced cs >>= add_write images target))
    → Tracked r
    → record_write q images target c r ≡ some r'
    → Tracked r'
unfolding record_write
record_write-Tracked q images target c r r' writes t e =
    elim (Option-cases (prepare_all images r)) [
      | inl failed ↦ absurd (ground arith)
      | inr (r₁, e₁) ↦
          let x = prepare_all-Prepares images r r₁ e₁ in
          let y = prepare_dest_image-Prepares target r₁ in
          let (r₂, e₂, imported, none_left) =
            insert_barrier-Synced q (prepare_dest_image target r₁) t.writes
              (ap unsynced (y.same_commands ∙ x.same_commands) ∙ t.synced)
              (y.dirty t.writes (x.dirty t.writes t.known)) in
          let step : record_write q images target c r ≡ mark_dirty target (recorded c r₂) =
            rw (e₁, e₂) refl in
          mark_dirty-Tracked images target c r₂ r' writes imported none_left (sym step ∙ e)
    ]

-- Only the list of the images and the commands matter.
Tracked-same :
    (r r' : Recording)
    → r'.buffer.texture_state ≡ r.buffer.texture_state
    → r'.buffer.commands ≡ r.buffer.commands
    → Tracked r
    → Tracked r'
Tracked-same r r' ts cs t = record {
  imported = subst (λ l. All IsImported l) (sym ts) t.imported;
  writes = t.writes;
  synced = ap unsynced cs ∙ t.synced;
  known = subst (λ l. AllDirty l t.writes) (sym ts) t.known;
}

discard_image-Tracked : (image : ℕ) (r : Recording) → Tracked r → Tracked (discard_image image r)
unfolding discard_image
discard_image-Tracked image r t = elim (Bool-cases (is_prepared image r.buffer.texture_state)) [
  | inl old ↦ rw old t
  | inr new ↦ rw new (record {
    imported = (refl, t.imported);
    writes = t.writes;
    synced = t.synced;
    known = AllDirty-cons _ _ t.writes t.known;
  })
]

run_call-Tracked :
    (q : Queues) (c : Call) (r r' : Recording) → Tracked r → run_call q c r ≡ some r' → Tracked r'
unfolding run_call bind_texture bind_target dispatch copy_image copy_buffer_to_image add_dependency
    add_signal unsynced
run_call-Tracked q (Call.set_texture slot image) r r' t e =
    let (bound, e₁, e₂) = some-bind (set_slot slot image r.buffer.bound_textures) _ e in
    Tracked-same r r' (ground arith) (ground arith) t
run_call-Tracked q (Call.set_target image) r r' t e =
    Tracked-same r r' (ground arith) (ground arith) t
run_call-Tracked q Call.dispatching r r' t e =
    let (image, e₁, e₂) = some-bind r.buffer.target _ e in
    record_write-Tracked q _ image _ r r' (λ cs. refl) t e₂
run_call-Tracked q (Call.copying src dst) r r' t e =
    let differ = not (
      ((r.textures src).width == (r.textures dst).width)
      && ((r.textures src).height == (r.textures dst).height)) in
    let (r₁, e₁, e₂) =
      some-bind (record_write q (src ∷ []) dst (Command.image_copied src dst) r) _
        (some-else differ e) in
    Tracked-same r₁ r' (ground arith) (ground arith)
      (record_write-Tracked q (src ∷ []) dst _ r r₁ (λ cs. refl) t e₁)
run_call-Tracked q (Call.uploading dst) r r' t e =
    let (r₁, e₁, e₂) = some-bind (record_write q [] dst (Command.buffer_copied dst) r) _ e in
    Tracked-same r₁ r' (ground arith) (ground arith)
      (record_write-Tracked q [] dst _ r r₁ (λ cs. refl) t e₁)
run_call-Tracked q (Call.discarding image) r r' t e =
    let same : discard_image image r ≡ r' = ground arith in
    subst Tracked same (discard_image-Tracked image r t)
run_call-Tracked q (Call.depending semaphore point) r r' t e =
    Tracked-same r r' (ground arith) (ground arith) t
run_call-Tracked q (Call.signalling semaphore point) r r' t e =
    Tracked-same r r' (ground arith) (ground arith) t

pub run_calls-Tracked :
    (q : Queues) (cs : List Call) (r r' : Recording)
    → Tracked r
    → run_calls q cs r ≡ some r'
    → Tracked r'
unfolding run_calls
run_calls-Tracked q [] r r' t e = let same : r ≡ r' = ground arith in subst Tracked same t
run_calls-Tracked q (c ∷ cs) r r' t e =
    let (r₁, e₁, e₂) = some-bind (run_call q c r) (run_calls q cs) e in
    run_calls-Tracked q cs r₁ r' (run_call-Tracked q c r r₁ t e₁) e₂

pub fresh-Tracked :
    (r : Recording) → r.buffer.texture_state ≡ [] → r.buffer.commands ≡ [] → Tracked r
unfolding unsynced
fresh-Tracked r ts cs = record {
  imported = subst (All IsImported) (sym ts) tt;
  writes = [];
  synced = rw cs refl;
  known = tt;
}

-- In a buffer that starts empty, no sequence of calls records a command that touches an image whose
-- last write was not waited for by a barrier in between.
pub run_calls-unsynced :
    (q : Queues) (cs : List Call) (r r' : Recording)
    → r.buffer.texture_state ≡ []
    → r.buffer.commands ≡ []
    → run_calls q cs r ≡ some r'
    → (ws : List ℕ) × (unsynced r'.buffer.commands ≡ some ws)
run_calls-unsynced q cs r r' ts no_commands e =
    let t = run_calls-Tracked q cs r r' (fresh-Tracked r ts no_commands) e in (t.writes, t.synced)
