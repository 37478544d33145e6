-- ===== src/Ui/Views.antt =====
-- Which sections are displayed.
pub mod Exclusive
use lens.Prelude.{
  subst, sym, Bool, true, false, String, ◌≡◌, refl, List, ◌∷◌, [], ◌&&◌, arith, Option, none, some,
  ℕ,
}
use lens.Js.Value.{Value}
use lens.Ui.State.{
  App, Dom, PoolData, Pending, Handler, set_user_info, set_pool_list, set_pool, list_pools,
}
use lens.Ui.Node.{Click, edit_pool, delete_pool, delete_bucket, delete_secret, copy_text}
use lens.Ui.Code.{set_data, set_dom, fetch, set_clipboard, set_clock, set_network, ◌>>=◌, ◌>>◌}
use lens.Ui.Code.Keeps.{Keeps, code_rules, loop_rules}
use lens.Ui.Render.{
  render_user_info, render_bucket_list, render_secret_list, bucket_node, render_response,
  render_pool_list, render_secret_expiration_default, render_buckets_directory,
  render_secret_list_by_policy, display_pool_list, display_pool_edit, display_pool_make,
}
use lens.Ui.Data.{
  copy_user_info_for_edit, key_shown, has_text, format_time_in_keys, copy_pool_data_for_edit,
  names_with_policy, make_pool_entry_for_printing, show_data, show_message, set_user_info_data,
  set_pool_list_data, set_pool_data,
}
use lens.Ui.Api.{
  submit_request, api_call, pool_call, api_get_user_info, api_list_pools, api_make_pool,
  api_delete_pool, run_edit_pool, api_make_bucket, api_delete_bucket, api_make_secret,
  api_delete_secret,
}
use lens.Ui.Actions.{
  Event, start_ui, kick_show_pool_make, kick_show_pool_list, kick_make_pool, kick_make_bucket,
  kick_make_secret, copy_to_clipboard, kick, kick_test_csrf, process, receive, answer, respond,
  Input, enter, handle, step, run, load,
}
use lens.Ui.Quiet.{Sections, sections, IsQuiet, page_rules}

-- A property of the displayed sections.
pub record On (Q : Sections → Type 0) (s : App) : Type 0 where
  pub holds : Q (sections s.dom)

module _ {Q : Sections → Type 0} where
  pub On-IsQuiet : IsQuiet (On Q)
  On-IsQuiet = record {
    on_data = λ f s h. record { holds = h.holds };
    on_dom = λ f k s h. record { holds = subst Q (sym (k s.dom)) h.holds };
  }

  pub fetch-On : (p : Pending) → Keeps (On Q) (fetch p)
  unfolding fetch
  fetch-On p = record { leaves = λ s h. record { holds = h.holds } }

  pub set_clipboard-On : (t : String) → Keeps (On Q) (set_clipboard t)
  unfolding set_clipboard
  set_clipboard-On t = record { leaves = λ s h. record { holds = h.holds } }

  pub set_clock-On : (n : ℕ) → Keeps (On Q) (set_clock n)
  unfolding set_clock
  set_clock-On n = record { leaves = λ s h. record { holds = h.holds } }

  pub set_network-On : (ps : List Pending) → Keeps (On Q) (set_network ps)
  unfolding set_network
  set_network-On ps = record { leaves = λ s h. record { holds = h.holds } }

module _ {Q : Sections → Type 0} where
  pub call-On :
      (msg method rest : String) (body : Option String) (h : Handler)
      → Keeps (On Q) (api_call msg method rest body h)
  unfolding api_call submit_request
  call-On msg method rest body h = search (page_rules, On-IsQuiet, fetch-On) depth 20

pub ruleset sections_rules =
    (page_rules, On-IsQuiet, fetch-On, set_clipboard-On, set_clock-On, set_network-On, call-On)
