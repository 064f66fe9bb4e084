-- ===== src/Protocol.antt =====
-- LuaInject/LuaInject/Protocol.h: the numbers by which the front end and the backend name events,
-- commands, messages, scopes and reasons. `EventID_EvaluateRet` shares 11 with
-- `EventId_Initialize`.
use vecoda.Base.{ℕ}

pub data BreakReason : Type 0 where
  break_point step exception load_exception : BreakReason

abbrev pub reason_code : BreakReason → ℕ
reason_code break_point = 1
reason_code step = 2
reason_code exception = 3
reason_code load_exception = 4

abbrev pub message_normal : ℕ
message_normal = 0

abbrev pub message_warning : ℕ
message_warning = 1

abbrev pub message_error : ℕ
message_error = 2

abbrev pub event_initialize : ℕ
event_initialize = 11

abbrev pub event_create_vm : ℕ
event_create_vm = 1

abbrev pub event_destroy_vm : ℕ
event_destroy_vm = 2

abbrev pub event_load_script : ℕ
event_load_script = 3

abbrev pub event_break : ℕ
event_break = 4

abbrev pub event_set_breakpoint : ℕ
event_set_breakpoint = 5

abbrev pub event_exception : ℕ
event_exception = 6

abbrev pub event_load_error : ℕ
event_load_error = 7

abbrev pub event_message : ℕ
event_message = 9

abbrev pub event_session_end : ℕ
event_session_end = 8

abbrev pub event_name_vm : ℕ
event_name_vm = 10

abbrev pub event_evaluate_ret : ℕ
event_evaluate_ret = 11

abbrev pub event_expand_table_ret : ℕ
event_expand_table_ret = 12

abbrev pub command_continue : ℕ
command_continue = 1

abbrev pub command_step_over : ℕ
command_step_over = 2

abbrev pub command_step_into : ℕ
command_step_into = 3

abbrev pub command_toggle_breakpoint : ℕ
command_toggle_breakpoint = 4

abbrev pub command_break : ℕ
command_break = 5

abbrev pub command_evaluate : ℕ
command_evaluate = 6

abbrev pub command_expand_table : ℕ
command_expand_table = 7

abbrev pub command_detach : ℕ
command_detach = 8

abbrev pub command_patch_replace_line : ℕ
command_patch_replace_line = 9

abbrev pub command_patch_insert_line : ℕ
command_patch_insert_line = 10

abbrev pub command_patch_delete_line : ℕ
command_patch_delete_line = 11

abbrev pub command_load_done : ℕ
command_load_done = 12

abbrev pub command_ignore_exception : ℕ
command_ignore_exception = 13

abbrev pub command_delete_all_breakpoints : ℕ
command_delete_all_breakpoints = 14

abbrev pub command_step_out : ℕ
command_step_out = 15

abbrev pub scope_none : ℕ
scope_none = 0

abbrev pub scope_local : ℕ
scope_local = 1

abbrev pub scope_upvalue : ℕ
scope_upvalue = 2

abbrev pub scope_global : ℕ
scope_global = 3
