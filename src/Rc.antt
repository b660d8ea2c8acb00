-- ===== src/Rc.antt =====
-- src/rc.h: objects with a public and a private reference count, and the handles Rc and OwningRc
-- (Rc< T, false >) on them.
pub mod Counting
pub mod Steps
pub mod Handles
use cloud_desktop.Prelude.{
  ℕ, zero, suc, ◌+◌, ◌-◌, ◌^◌, Bool, true, false, ◌&&◌, ◌||◌, not, ◌==◌, ◌=ᵇ◌, if◌then◌else◌,
  Option, none, some, List, [], ◌∷◌, get_elem?, u32, u32_mod, ◌%◌,
}

-- `deletes` counts how often `delete this` has run.
pub record RcObject : Type 0 where
  pub ref_count : ℕ
  pub ref_private : ℕ
  pub deletes : ℕ

abbrev pub new_object : RcObject
new_object = record { ref_count = 0; ref_private = 0; deletes = 0 }

-- m_uCount - 1 on uint32_t.
abbrev pub minus_one : ℕ → ℕ
minus_one n = u32 (n + (u32_mod - 1))

unfoldable pub inc_ref_private : RcObject → RcObject
inc_ref_private o = record o { ref_private = u32 (o.ref_private + 1) }

unfoldable pub dec_ref_private : RcObject → RcObject
dec_ref_private o =
    if minus_one o.ref_private == 0
    then record o { ref_private = u32 (0 + 2 ^ 31); deletes = o.deletes + 1 }
    else record o { ref_private = minus_one o.ref_private }

unfoldable pub inc_ref : RcObject → RcObject
unfolding inc_ref_private
inc_ref o =
    let o' = record o { ref_count = u32 (o.ref_count + 1) } in
    if o.ref_count == 0 then inc_ref_private o' else o'

unfoldable pub dec_ref : RcObject → RcObject
unfolding dec_ref_private
dec_ref o =
    let o' = record o { ref_count = minus_one o.ref_count } in
    if minus_one o.ref_count == 0 then dec_ref_private o' else o'

-- An Rc: its template argument `Public`, and the address that m_pObject holds.
pub record Handle : Type 0 where
  pub is_public : Bool
  pub object : Option ℕ

abbrev pub points_to : ℕ → Option ℕ → Bool
points_to a none = false
points_to a (some b) = b == a

abbrev pub Heap : Type 0
Heap = ℕ → RcObject

-- Rc::IncRef and Rc::DecRef, by RcRef_.
unfoldable pub inc_handle : Handle → Heap → Heap
inc_handle h heap a =
    if points_to a h.object
    then (if h.is_public then inc_ref (heap a) else inc_ref_private (heap a))
    else heap a

unfoldable pub dec_handle : Handle → Heap → Heap
dec_handle h heap a =
    if points_to a h.object
    then (if h.is_public then dec_ref (heap a) else dec_ref_private (heap a))
    else heap a

-- The objects, and the handles that there are, the newest first.
pub record World : Type 0 where
  pub heap : Heap
  pub handles : List Handle

-- Writing the i-th handle.
unfoldable pub replace : ℕ → Handle → List Handle → List Handle
replace i h [] = []
replace zero h (g ∷ gs) = h ∷ gs
replace (suc i) h (g ∷ gs) = g ∷ replace i h gs

abbrev pub emptied : Handle → Handle
emptied h = record h { object = none }

-- Rc( T *pObject ) and the copy constructors: a new handle.
unfoldable pub construct : Handle → World → World
construct h w = record { heap = inc_handle h w.heap; handles = h ∷ w.handles }

unfoldable pub copy_construct : Bool → ℕ → World → Option World
copy_construct is_public i w = elim (get_elem? w.handles i) [
  | none ↦ none
  | some g ↦ some (construct (record { is_public = is_public; object = g.object }) w)
]

-- The move constructors.
unfoldable pub move_construct : ℕ → World → Option World
move_construct i w = elim (get_elem? w.handles i) [
  | none ↦ none
  | some g ↦ some (record w { handles = g ∷ replace i (emptied g) w.handles })
]

-- Rc& operator = ( std::nullptr_t ); the destructor leaves as little behind.
unfoldable pub reset : ℕ → World → Option World
reset i w = elim (get_elem? w.handles i) [
  | none ↦ none
  | some g ↦ some (record { heap = dec_handle g w.heap; handles = replace i (emptied g) w.handles })
]

-- Rc& operator = ( const Rc& other )
unfoldable pub copy_assign : ℕ → ℕ → World → Option World
copy_assign i j w = elim (get_elem? w.handles i) [
  | none ↦ none
  | some g ↦ elim (get_elem? w.handles j) [
    | none ↦ none
    | some h ↦
        if g.is_public =ᵇ h.is_public
        then some (record {
          heap = dec_handle g (inc_handle h w.heap);
          handles = replace i (record g { object = h.object }) w.handles;
        })
        else none
  ]
]

-- Rc& operator = ( Rc&& other )
unfoldable pub move_assign : ℕ → ℕ → World → Option World
move_assign i j w = elim (get_elem? w.handles i) [
  | none ↦ none
  | some g ↦ elim (get_elem? w.handles j) [
    | none ↦ none
    | some h ↦
        if g.is_public =ᵇ h.is_public
        then some (record {
          heap = dec_handle g w.heap;
          handles = replace j (emptied h) (replace i (record g { object = h.object }) w.handles);
        })
        else none
  ]
]

pub data Op : Type 0 where
  make : Handle → Op
  copy : Bool → ℕ → Op
  move clear : ℕ → Op
  assign assign_move : ℕ → ℕ → Op

-- What a raw pointer points to has not been deleted.
abbrev pub is_live : Handle → Heap → Bool
is_live h heap = elim h.object [ none ↦ true | some a ↦ (heap a).deletes == 0 ]

-- `none` is a handle that there is not, one of the other kind, or a pointer to a deleted object.
unfoldable pub step : Op → World → Option World
step (make h) w = if is_live h w.heap then some (construct h w) else none
step (copy is_public i) w = copy_construct is_public i w
step (move i) w = move_construct i w
step (clear i) w = reset i w
step (assign i j) w = copy_assign i j w
step (assign_move i j) w = move_assign i j w

unfoldable pub run_ops : List Op → World → Option World
run_ops [] w = some w
run_ops (op ∷ ops) w = elim (step op w) [ none ↦ none | some w' ↦ run_ops ops w' ]

-- No handles, and objects that have just been made.
abbrev pub new_world : World
new_world = record { heap = λ a. new_object; handles = [] }
