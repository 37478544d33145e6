-- ===== src/Twins/Tests.antt =====
-- The two user interfaces on sample data.
use lens.Prelude.{List, ◌≡◌, refl, map, true, none, ◌∷◌, []}
use lens.Js.Value.{str}
use lens.Ui.State.{App}
use lens.Ui.Code.{final}
use lens.Ui.Actions
use lens.Ui.Tests.{pool, pool-IsTimely, pool_response-pool_desc, page, pool_response, list_response}
use lens.Vue.State.{Client}
use lens.Vue.Code.{left}
use lens.Vue.Tests.{client}
use lens.Twins.{
  AreTwins, page_wire, client_wire, deletion, new_bucket, bucket_deletion, bucket_name, copying,
  loss,
}
use lens.Twins.Shown.{page_key, client_key, same_editor}
use lens.Twins.Run.{Pairs, no_more, both, run-twins}

-- Both show a pool in the editor; the inputs for a new pool hold what the client takes from it.
abbrev page_editor : App
page_editor = final (
    lens.Ui.Data.set_pool_data pool_response (
      final (
        lens.Ui.Data.set_pool_list_data list_response (record page {
          dom = record (page.dom) {
            pool_directory = "/home/u/pool";
            group_value = "g";
            bucket_policy = "none";
          };
        }))))

abbrev client_editor : Client
client_editor = left (
    lens.Vue.Client.set_pool_data pool_response
      (left (lens.Vue.Client.set_pool_list list_response client)))

editors-AreTwins : AreTwins page_editor client_editor
unfolding lens.Ui.Tests.ui lens.Vue.Tests.vue
editors-AreTwins = record {
  base = refl;
  token = refl;
  pools = refl;
  name = refl;
  directory = refl;
  group = refl;
  clipboard = refl;
  bucket = refl;
  policy = refl;
  sent = refl;
}

abbrev page_events : List lens.Ui.Actions.Event
page_events =
    lens.Ui.Actions.input lens.Ui.Actions.bucket_name "b3"
    ∷ lens.Ui.Actions.make_bucket
    ∷ lens.Ui.Actions.click (lens.Ui.Node.delete_bucket (str "b1"))
    ∷ lens.Ui.Actions.response 0 true none
    ∷ lens.Ui.Actions.click (lens.Ui.Node.copy_text (str "k1"))
    ∷ lens.Ui.Actions.click (lens.Ui.Node.delete_pool 0)
    ∷ []

abbrev client_events : List lens.Vue.Actions.Event
client_events =
    lens.Vue.Actions.input (lens.Vue.Actions.bucket_name "b3")
    ∷ lens.Vue.Actions.make_bucket
    ∷ lens.Vue.Actions.delete_bucket (str "b1")
    ∷ lens.Vue.Actions.response 0 true none
    ∷ lens.Vue.Actions.copy_text (str "k1")
    ∷ lens.Vue.Actions.delete_pool 0
    ∷ []

abbrev clicks : Pairs page_events client_events
clicks = both (bucket_name "b3") (
    both new_bucket (
      both (bucket_deletion (str "b1"))
        (both (loss 0 true true) (both (copying (str "k1")) (both (deletion 0) no_more)))))

run-twins_example :
    (map page_wire (lens.Ui.Actions.run page_editor page_events).network
      ≡ map client_wire (lens.Vue.Actions.run client_editor client_events).network)
    × ((lens.Ui.Actions.run page_editor page_events).clipboard
        ≡ (lens.Vue.Actions.run client_editor client_events).clipboard)
run-twins_example = run-twins page_editor client_editor clicks editors-AreTwins

same_editor_example :
    let p = (final (lens.Ui.Data.set_pool_data pool_response page)).pool_data in
    let q = (left (lens.Vue.Client.set_pool_data pool_response client)).pool_data in
    (p.pool_name ≡ q.pool_name)
    × (p.buckets_directory ≡ q.buckets_directory)
    × (p.bucket_list ≡ q.buckets)
    × (map page_key p.secrets_rw ≡ map client_key q.secrets_rw)
    × (map page_key p.secrets_ro ≡ map client_key q.secrets_ro)
    × (map page_key p.secrets_wo ≡ map client_key q.secrets_wo)
same_editor_example =
    same_editor pool pool_response page client pool-IsTimely pool_response-pool_desc
