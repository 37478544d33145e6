-- ===== src/Ui/Spec/Shown.antt =====
-- `set_pool_data` and `set_pool_list_data` of lens3ui.js on data as the server describes it.
use lens.Prelude.{◌≡◌, refl, List, [], ◌∷◌, map, All, some}
use lens.Js.Value.{Value, get, array, iterate, elements, to_text, items, arr}
use lens.Ui.State.{App}
use lens.Ui.Code.{◌>>=◌, done, each}
use lens.Ui.Render.{
  dom_value, render_buckets_directory, render_bucket_list, render_secret_list,
  render_secret_list_by_policy, render_pool_list, display_pool_list, display_pool_edit,
}
use lens.Ui.Data.{
  format_time_in_keys, copy_pool_data_for_edit, make_pool_entry_for_printing, set_pool_data,
  set_pool_list_data,
}
use lens.Ui.Spec.{Desc, desc_value, IsTimely, keys_with, rows, edited, listed}
use lens.Ui.Spec.Lists.{
  list_of-items, each-key_shown, filter-secrets, names_with_policy_lem, each-bucket_node,
  All-select, format_time_z-num,
}

make_pool_entry_for_printing_lem :
    (d : Desc) (s : App)
    → IsTimely d
    → make_pool_entry_for_printing (desc_value d) s ≡ done (rows d) s
unfolding make_pool_entry_for_printing ◌>>=◌ get array to_text
make_pool_entry_for_printing_lem d s (ks, e, m) = rw list_of-items (
    rw names_with_policy_lem (
      rw names_with_policy_lem (
        rw names_with_policy_lem (
          rw names_with_policy_lem (
            rw (format_time_z-num d.expiration_time e)
              (rw (format_time_z-num d.modification_time m)))))))

-- `set_pool_data` on a response with the description of a pool, its times and those of its keys in
-- the range of Date, whatever the page is: the code ends without an exception, and the page is the
-- specified one. The keys are divided by their policies, in order, with their times as texts.
pub set_pool_data_lem :
    (d : Desc) (response : Value) (s : App)
    → IsTimely d
    → get response "pool_desc" ≡ some (desc_value d)
    → set_pool_data response s ≡ done tt (edited d s)
unfolding set_pool_data copy_pool_data_for_edit ◌>>=◌ get array iterate format_time_in_keys
    render_buckets_directory render_bucket_list render_secret_list render_secret_list_by_policy
    dom_value display_pool_list display_pool_edit
set_pool_data_lem d response s (ks, e, m) sent = rw sent (
    rw list_of-items (
      rw filter-secrets (
        rw filter-secrets (
          rw filter-secrets (
            rw (each-key_shown _ (keys_with "readwrite" d) (All-select "readwrite" d.secrets ks)) (
              rw (each-key_shown _ (keys_with "readonly" d) (All-select "readonly" d.secrets ks)) (
                rw
                  (each-key_shown _ (keys_with "writeonly" d) (All-select "writeonly" d.secrets ks))
                  (rw list_of-items (rw each-bucket_node)))))))))

each-make_pool_entry :
    (ds : List Desc) (s : App)
    → All IsTimely ds
    → each make_pool_entry_for_printing (map desc_value ds) s ≡ done (map rows ds) s
unfolding each ◌>>=◌
each-make_pool_entry [] s h = refl
each-make_pool_entry (d ∷ ds) s (h, hs) =
    rw (make_pool_entry_for_printing_lem d s h) (rw (each-make_pool_entry ds s hs))

-- `set_pool_list_data` on a response with descriptions of pools, their times and those of their
-- keys in the range of Date, whatever the page is: the code ends without an exception, the
-- descriptions are kept, and there is an entry for each, with the lines that are specified.
pub set_pool_list_data_lem :
    (ds : List Desc) (response : Value) (s : App)
    → All IsTimely ds
    → get response "pool_list" ≡ some (arr (items (map desc_value ds)))
    → set_pool_list_data response s ≡ done tt (listed ds s)
unfolding set_pool_list_data ◌>>=◌ get elements render_pool_list display_pool_list display_pool_edit
set_pool_list_data_lem ds response s h sent =
    rw sent (rw list_of-items (rw (each-make_pool_entry ds _ h)))
