-- ===== src/Twins/Run.antt =====
-- The two user interfaces through the same clicks.
use lens.Prelude.{refl, List, [], ◌∷◌, ◌≡◌, map}
use lens.Ui.State.{App}
use lens.Vue.State.{Client}
use lens.Ui.Actions
use lens.Twins.{
  AreTwins, Same, loading, making, deletion, new_pool, new_bucket, bucket_deletion, key_deletion,
  copying, pool_directory, pool_group, bucket_name, bucket_policy, loss, page_wire, client_wire,
}
use lens.Twins.Losses.{loss-AreTwins}
use lens.Twins.Steps.{
  dom-AreTwins, user_info-AreTwins, make_pool-AreTwins, make_bucket-AreTwins,
  delete_bucket-AreTwins, delete_secret-AreTwins, delete_pool-AreTwins,
}

step-AreTwins :
    {e : lens.Ui.Actions.Event} {e' : lens.Vue.Actions.Event} (s : App) (c : Client)
    → Same e e'
    → AreTwins s c
    → AreTwins (lens.Ui.Actions.step s e) (lens.Vue.Actions.step c e')
unfolding lens.Ui.Actions.step lens.Vue.Actions.step lens.Ui.Actions.handle lens.Vue.Actions.handle
    lens.Ui.Code.◌>>=◌ lens.Vue.Code.◌>>=◌ lens.Ui.Actions.start_ui
    lens.Vue.Actions.create_pool_make lens.Ui.Actions.kick_show_pool_make lens.Ui.Actions.kick
    lens.Ui.Actions.enter lens.Vue.Actions.enter lens.Ui.Render.display_pool_make
    lens.Ui.Render.display_pool_list lens.Ui.Render.display_pool_edit
    lens.Ui.Actions.copy_to_clipboard lens.Vue.Actions.kick_copy_to_clipboard
step-AreTwins s c loading k = user_info-AreTwins _ c (dom-AreTwins s _ c refl refl refl refl k)
step-AreTwins s c making k = user_info-AreTwins _ c (dom-AreTwins s _ c refl refl refl refl k)
step-AreTwins s c (deletion i) k = delete_pool-AreTwins s c k i
step-AreTwins s c new_pool k = make_pool-AreTwins s c k
step-AreTwins s c new_bucket k = make_bucket-AreTwins s c k
step-AreTwins s c (bucket_deletion v) k = delete_bucket-AreTwins s c k v
step-AreTwins s c (key_deletion v) k = delete_secret-AreTwins s c k v
step-AreTwins s c (copying v) k = record {
  base = k.base;
  token = k.token;
  pools = k.pools;
  name = k.name;
  directory = k.directory;
  group = k.group;
  clipboard = refl;
  bucket = k.bucket;
  policy = k.policy;
  sent = k.sent;
}
step-AreTwins s c (pool_directory t) k = record {
  base = k.base;
  token = k.token;
  pools = k.pools;
  name = k.name;
  directory = refl;
  group = k.group;
  clipboard = k.clipboard;
  bucket = k.bucket;
  policy = k.policy;
  sent = k.sent;
}
step-AreTwins s c (pool_group t) k = record {
  base = k.base;
  token = k.token;
  pools = k.pools;
  name = k.name;
  directory = k.directory;
  group = refl;
  clipboard = k.clipboard;
  bucket = k.bucket;
  policy = k.policy;
  sent = k.sent;
}
step-AreTwins s c (bucket_name t) k = record {
  base = k.base;
  token = k.token;
  pools = k.pools;
  name = k.name;
  directory = k.directory;
  group = k.group;
  clipboard = k.clipboard;
  bucket = refl;
  policy = k.policy;
  sent = k.sent;
}
step-AreTwins s c (bucket_policy t) k = record {
  base = k.base;
  token = k.token;
  pools = k.pools;
  name = k.name;
  directory = k.directory;
  group = k.group;
  clipboard = k.clipboard;
  bucket = k.bucket;
  policy = refl;
  sent = k.sent;
}
step-AreTwins s c (loss i is_ok is_ok') k = loss-AreTwins s c i is_ok is_ok' k

-- Events of the page with those of the client that are the same.
pub data Pairs : List lens.Ui.Actions.Event → List lens.Vue.Actions.Event → Type 0 where
  no_more : Pairs [] []
  both :
      {e : lens.Ui.Actions.Event} {e' : lens.Vue.Actions.Event} {es : List lens.Ui.Actions.Event}
      {es' : List lens.Vue.Actions.Event}
      → Same e e'
      → Pairs es es'
      → Pairs (e ∷ es) (e' ∷ es')

run-AreTwins :
    {es : List lens.Ui.Actions.Event} {es' : List lens.Vue.Actions.Event}
    → Pairs es es'
    → (s : App) (c : Client) → AreTwins s c
    → AreTwins (lens.Ui.Actions.run s es) (lens.Vue.Actions.run c es')
run-AreTwins no_more s c k = k
run-AreTwins (both h hs) s c k = run-AreTwins hs _ _ (step-AreTwins s c h k)

-- When the page of ui2 and the Vue client have the same base path, token, pools, pool in the editor, inputs
-- for a new pool and a new bucket, and clipboard, and the same requests under way, then after the same
-- events (loading, new pools and buckets, deletions of pools, buckets and keys, copies, entries into those
-- inputs, and the loss of responses) the same requests are under way, and the clipboards are the same.
pub run-twins :
    {es : List lens.Ui.Actions.Event} {es' : List lens.Vue.Actions.Event} (s : App) (c : Client)
    → Pairs es es'
    → AreTwins s c
    → (map page_wire (lens.Ui.Actions.run s es).network
        ≡ map client_wire (lens.Vue.Actions.run c es').network)
      × ((lens.Ui.Actions.run s es).clipboard ≡ (lens.Vue.Actions.run c es').clipboard)
run-twins s c h k = let k' = run-AreTwins h s c k in (k'.sent, k'.clipboard)
