-- ===== src/Backend/Vms.antt =====
-- `AttachState` and `DetachState` of DebugBackend.cpp: the machines that the backend tracks. The
-- registration of the Lua library and of the collection callback, which only call into Lua, is
-- left out; `stack_ok` is what `lua_checkstack` answers.
pub mod Linked
pub mod Detach
use vecoda.Base.{
  ℕ, suc, ◌+◌, ◌≡◌, Bool, true, false, ◌||◌, List, [], ◌∷◌, ◌++◌, Option, none, some, ◌==◌,
  if◌then◌else◌, Text,
}
use vecoda.LuaDll.{LuaHooks}
use vecoda.LuaDll.HookMode
use vecoda.Protocol
use vecoda.Backend.{
  Mode, VirtualMachine, ClassInfo, uint32, uint, Objects, Backend, put, free, find_state, write,
  hook, get_is_attached,
}

-- The loop of `AttachState` over the machines: whether one of them has active breakpoints.
unfoldable pub any_active : List (ℕ × ℕ) → Objects → Bool
any_active [] objects = false
any_active ((k, p) ∷ m) objects =
    elim (objects p) [ none ↦ false | some vm ↦ vm.have_active_breakpoints ] || any_active m objects

abbrev pub new_vm : ℕ → ℕ → Bool → VirtualMachine
new_vm api l active = record {
  l = l;
  initialized = false;
  call_count = 0;
  call_stack_depth = 0;
  last_step_line = 0xffff_fffe;
  last_step_script = none;
  api = api;
  name = [];
  stack_top = 0;
  lua_jit_work_around = false;
  breakpoint_in_stack = true;
  have_active_breakpoints = active;
  last_functions = [];
  break_event = false;
  mode = Mode.continue;
}

module _ {H : Type 0} where
  -- `new VirtualMachine`, entered in the vector and the map.
  unfoldable pub add_vm : ℕ → ℕ → Backend H → Backend H
  unfolding any_active
  add_vm api l s = record s {
    objects = put s.objects s.next_object (new_vm api l (any_active s.state_to_vm s.objects));
    next_object = suc s.next_object;
    vms = s.vms ++ s.next_object ∷ [];
    state_to_vm = s.state_to_vm ++ (l, s.next_object) ∷ [];
  }

  -- The rest of `AttachState` once the machine at `p` is entered.
  unfoldable pub start_debugging :
      ⦃lua : LuaHooks H⦄ → Bool → ℕ → ℕ → Backend H → Backend H × Option ℕ
  start_debugging true l p s = (
    hook (write s (uint32 Protocol.event_create_vm ∷ uint l ∷ [])) l HookMode.HookMode.full,
    some p,
  )
  start_debugging false l p s = (s, none)

  -- The machine that the map has already, or a new one.
  unfoldable pub attach_found :
      ⦃lua : LuaHooks H⦄ → ℕ → ℕ → Bool → Backend H → Option ℕ → Backend H × Option ℕ
  unfolding add_vm start_debugging
  attach_found api l stack_ok s (some p) = (s, some p)
  attach_found api l stack_ok s none = start_debugging stack_ok l s.next_object (add_vm api l s)

  -- The machine's address, or `none` for `NULL`.
  unfoldable pub attach_state : ⦃lua : LuaHooks H⦄ → ℕ → ℕ → Bool → Backend H → Backend H × Option ℕ
  unfolding attach_found get_is_attached
  attach_state api l stack_ok s =
      if get_is_attached s
      then attach_found api l stack_ok s (find_state l s.state_to_vm)
      else (s, none)

-- The first loop of `DetachState`.
unfoldable pub drop_classes : ℕ → List ClassInfo → List ClassInfo
drop_classes l [] = []
drop_classes l (c ∷ cs) = if c.l == l then drop_classes l cs else c ∷ drop_classes l cs

-- `m_stateToVm.erase`.
unfoldable pub erase_state : ℕ → List (ℕ × ℕ) → List (ℕ × ℕ)
erase_state l [] = []
erase_state l ((k, p) ∷ m) = if k == l then m else (k, p) ∷ erase_state l m

-- `vm->L == L`.
unfoldable pub is_of_state : ℕ → Objects → ℕ → Bool
is_of_state l objects p = elim (objects p) [ none ↦ false | some vm ↦ vm.l == l ]

-- The last loop of `DetachState`. After an `erase` the index still moves on, so the entry that took
-- the erased one's place is passed over.
unfoldable pub erase_vms : ℕ → List ℕ → Objects → List ℕ × Objects
unfolding is_of_state
erase_vms l [] objects = ([], objects)
erase_vms l (p ∷ []) objects =
    if is_of_state l objects p then ([], free objects p) else (p ∷ [], objects)
erase_vms l (p ∷ q ∷ ps) objects =
    let skip = erase_vms l ps (free objects p) in
    let keep = erase_vms l (q ∷ ps) objects in
    if is_of_state l objects p then (q ∷ skip.0, skip.1) else (p ∷ keep.0, keep.1)

module _ {H : Type 0} where
  unfoldable pub detach_state : ℕ → Backend H → Backend H
  detach_state l s =
      let t = record s { class_infos = drop_classes l s.class_infos } in
      let u : Backend H = elim (find_state l t.state_to_vm) [
        | none ↦ t
        | some p ↦ record (write t (uint32 Protocol.event_destroy_vm ∷ uint l ∷ [])) {
          state_to_vm = erase_state l t.state_to_vm;
        }
      ] in
      let (vms, objects) = erase_vms l u.vms u.objects in record u { vms = vms; objects = objects }
