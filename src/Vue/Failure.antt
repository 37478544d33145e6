-- ===== src/Vue/Failure.antt =====
-- Responses without success, in the Vue client.
use lens.Prelude.{
  ℕ, String, false, ◌≡◌, refl, Option, some, none, get_elem?, erase_idx, Option-cases, inl, inr,
}
use lens.Js.Value.{Value, get}
use lens.Vue.State.{Pending, Client}
use lens.Vue.Code.{◌>>=◌, left}
use lens.Vue.Actions.{show_failure, receive, answer, respond, step, handle, response}

-- The client with the dialog closed and empty.
abbrev pub without_dialog : Client → Client
without_dialog s = record s {
  pool_data = record (s.pool_data) { dialog_text = ""; dialog_visible = false };
}

show_failure_lem :
    (op_name : String) (v : Value) (s : Client)
    → without_dialog (left (show_failure op_name v s)) ≡ without_dialog s
unfolding show_failure ◌>>=◌
show_failure_lem op_name v s = elim (Option-cases (get v "status")) [
  | inl e ↦ rw e refl
  | inr (status, e) ↦ elim (Option-cases (get v "reason")) [
    | inl f ↦ rw (e, f) refl
    | inr (reason, f) ↦ rw (e, f) refl
  ]
]

answer_lem :
    (p : Option Pending) (json : Option Value) (s : Client)
    → without_dialog (left (answer p false json s)) ≡ without_dialog s
unfolding receive ◌>>=◌
answer_lem none json s = refl
answer_lem (some p) none s = refl
answer_lem (some p) (some v) s = show_failure_lem p.op_name v s

-- A response without success, of any form and to any request under way, ends that request and changes
-- nothing else of the Vue client but its dialog.
pub step-failure :
    (s : Client) (i : ℕ) (json : Option Value)
    → without_dialog (step s (response i false json))
      ≡ without_dialog (record s { network = erase_idx s.network i })
unfolding step handle respond ◌>>=◌
step-failure s i json = answer_lem (get_elem? s.network i) json _
