-- ===== src/Twins/Steps.antt =====
-- Each pair of clicks sends the same request, or none.
use Prim.Native.String.{◌++◌}
use mathlib.Core.List.{map-append}
use lens.Prelude.{ℕ, String, ◌≡◌, refl, ap, Option, some, none}
use lens.Js.Value.{Value, str, obj, field, no_fields, index, get, to_text}
use lens.Ui.State.{App, Dom}
use lens.Ui.State
use lens.Ui.Code.{final, type_error}
use lens.Ui.Api.{api_call}
use lens.Ui.Actions
use lens.Vue.State.{Client}
use lens.Vue.Code.{left}
use lens.Vue.Client.{call}
use lens.Twins.{AreTwins}

call-AreTwins :
    (msg op method : String) {rest rest' : String} {body body' : Option String}
    (h : lens.Ui.State.Handler) (h' : lens.Vue.State.Handler) (s : App) (c : Client)
    → rest ≡ rest'
    → body ≡ body'
    → AreTwins s c
    → AreTwins (final (api_call msg method rest body h s)) (left (call op method rest' body' h' c))
unfolding api_call lens.Ui.Api.submit_request lens.Ui.Data.show_message
    lens.Ui.Render.render_response lens.Ui.Code.◌>>=◌ lens.Js.Value.truthy call
    lens.Vue.Client.submit_request lens.Vue.Code.◌>>=◌ lens.Ui.Api.request_headers
    lens.Vue.Client.request_headers
call-AreTwins msg op method h h' s c e e' k = record {
  base = k.base;
  token = k.token;
  pools = k.pools;
  name = k.name;
  directory = k.directory;
  group = k.group;
  clipboard = k.clipboard;
  bucket = k.bucket;
  policy = k.policy;
  sent = rw (map-append, map-append, k.sent, k.base, k.token, e, e') refl;
}

-- Another document with the same inputs.
pub dom-AreTwins :
    (s : App) (d : Dom) (c : Client)
    → d.pool_directory ≡ s.dom.pool_directory
    → d.group_value ≡ s.dom.group_value
    → d.bucket_name ≡ s.dom.bucket_name
    → d.bucket_policy ≡ s.dom.bucket_policy
    → AreTwins s c
    → AreTwins (record s { dom = d }) c
dom-AreTwins s d c e1 e2 e3 e4 k = record {
  base = k.base;
  token = k.token;
  pools = k.pools;
  name = k.name;
  directory = rw e1 k.directory;
  group = rw e2 k.group;
  clipboard = k.clipboard;
  bucket = rw e3 k.bucket;
  policy = rw e4 k.policy;
  sent = k.sent;
}

pub user_info-AreTwins :
    (s : App) (c : Client)
    → AreTwins s c
    → AreTwins
        (final (lens.Ui.Api.api_get_user_info s))
        (left (lens.Vue.Client.api_get_user_info c))
unfolding lens.Ui.Api.api_get_user_info lens.Vue.Client.api_get_user_info
user_info-AreTwins s c k = call-AreTwins _ _ "GET" _ _ s c refl refl k

-- A request below the path of the pool in the editor.
pool-AreTwins :
    (msg op method rest : String) {body body' : String} (h : lens.Vue.State.Handler) (s : App)
    (c : Client)
    → body ≡ body'
    → AreTwins s c
    → AreTwins (final (lens.Ui.Api.pool_call msg method rest body s)) (
        left
          (call op method ("/pool/" ++ (to_text c.pool_data.pool_name ++ rest)) (some body') h c))
unfolding lens.Ui.Api.pool_call lens.Ui.Code.◌>>=◌
pool-AreTwins msg op method rest h s c e k =
    call-AreTwins msg op method lens.Ui.State.set_pool h s c
      (ap (λ n. "/pool/" ++ (to_text n ++ rest)) k.name) (ap some e) k

module _ (s : App) (c : Client) (k : AreTwins s c) where
  pub make_pool-AreTwins :
      AreTwins (final (lens.Ui.Actions.kick_make_pool s)) (left (lens.Vue.Actions.kick_make_pool c))
  unfolding lens.Ui.Actions.kick_make_pool lens.Vue.Actions.kick_make_pool lens.Ui.Code.◌>>=◌
      lens.Vue.Code.◌>>=◌ lens.Ui.Api.api_make_pool lens.Vue.Client.api_make_pool
      lens.Ui.Render.display_pool_make
  make_pool-AreTwins =
      call-AreTwins _ _ "POST" _ _ _ c refl (rw (k.directory, k.group) refl)
        (dom-AreTwins s _ c refl refl refl refl k)

  pub make_bucket-AreTwins :
      AreTwins
        (final (lens.Ui.Actions.kick_make_bucket s))
        (left (lens.Vue.Actions.kick_make_bucket c))
  unfolding lens.Ui.Actions.kick_make_bucket lens.Vue.Actions.kick_make_bucket lens.Ui.Code.◌>>=◌
      lens.Vue.Code.◌>>=◌ lens.Ui.Api.api_make_bucket lens.Vue.Client.api_make_bucket
  make_bucket-AreTwins = pool-AreTwins _ _ "PUT" "/bucket" _ s c (rw (k.bucket, k.policy) refl) k

  pub delete_bucket-AreTwins :
      (v : Value)
      → AreTwins
          (final (lens.Ui.Api.api_delete_bucket v s))
          (left (lens.Vue.Actions.kick_delete_bucket v c))
  unfolding lens.Vue.Actions.kick_delete_bucket lens.Vue.Code.◌>>=◌ lens.Ui.Api.api_delete_bucket
      lens.Vue.Client.api_delete_bucket lens.Ui.Api.no_args lens.Vue.Client.no_args
  delete_bucket-AreTwins v = pool-AreTwins _ _ "DELETE" ("/bucket/" ++ to_text v) _ s c refl k

  pub delete_secret-AreTwins :
      (v : Value)
      → AreTwins
          (final (lens.Ui.Api.api_delete_secret v s))
          (left (lens.Vue.Actions.kick_delete_secret v c))
  unfolding lens.Vue.Actions.kick_delete_secret lens.Vue.Code.◌>>=◌ lens.Ui.Api.api_delete_secret
      lens.Vue.Client.api_delete_secret lens.Ui.Api.no_args lens.Vue.Client.no_args
  delete_secret-AreTwins v = pool-AreTwins _ _ "DELETE" ("/secret/" ++ to_text v) _ s c refl k

  -- The pool that is deleted has a name, or both throw.
  named_pool-AreTwins :
      (o o' : Option Value)
      → o ≡ o'
      → AreTwins
          (final (
            lens.Ui.Code.◌>>=◌
              (lens.Ui.Code.or_throw type_error o)
              (λ name.
                api_call "delete pool" "DELETE"
                  ("/pool/" ++ to_text name)
                  (some lens.Ui.Api.no_args)
                  lens.Ui.State.list_pools)
              s))
          (left (
            lens.Vue.Code.◌>>=◌
              (lens.Vue.Code.or_fail type_error o')
              lens.Vue.Client.api_delete_pool
              c))
  unfolding lens.Vue.Code.◌>>=◌ lens.Ui.Code.◌>>=◌ lens.Vue.Client.api_delete_pool
      lens.Ui.Api.no_args lens.Vue.Client.no_args
  named_pool-AreTwins none o' e = rw⁻¹ e k
  named_pool-AreTwins (some name) o' e = rw⁻¹ e (call-AreTwins _ _ "DELETE" _ _ s c refl refl k)

  indexed_pool-AreTwins :
      (o o' : Option Value)
      → o ≡ o'
      → AreTwins
          (final (
            lens.Ui.Code.◌>>=◌
              (lens.Ui.Code.or_throw type_error o)
              (λ desc. lens.Ui.Code.◌>>=◌ (lens.Ui.Code.prop desc "pool_name") (λ name.
                api_call "delete pool" "DELETE"
                  ("/pool/" ++ to_text name)
                  (some lens.Ui.Api.no_args)
                  lens.Ui.State.list_pools))
              s))
          (left (
            lens.Vue.Code.◌>>=◌
              (lens.Vue.Code.or_fail type_error o')
              (λ d.
                lens.Vue.Code.◌>>=◌
                  (lens.Vue.Code.prop d "pool_name")
                  lens.Vue.Client.api_delete_pool)
              c))
  unfolding lens.Vue.Code.◌>>=◌ lens.Ui.Code.◌>>=◌
  indexed_pool-AreTwins none o' e = rw⁻¹ e k
  indexed_pool-AreTwins (some desc) o' e =
      rw⁻¹ e (named_pool-AreTwins (get desc "pool_name") (get desc "pool_name") refl)

  pub delete_pool-AreTwins :
      (i : ℕ)
      → AreTwins
          (final (lens.Ui.Api.api_delete_pool i s))
          (left (lens.Vue.Actions.kick_delete_pool i c))
  unfolding lens.Vue.Actions.kick_delete_pool lens.Vue.Code.◌>>=◌ lens.Ui.Code.◌>>=◌
      lens.Ui.Api.api_delete_pool
  delete_pool-AreTwins i = indexed_pool-AreTwins _ _ (ap (λ ps. index ps i) k.pools)
