-- ===== src/V1/Render.antt =====
-- The functions that display and render, in v1's lens3ui.js. The text of each is that of v2.
use lens.Prelude.{String, Bool, List}
use lens.Ui.State.{Key}
use lens.Ui.Code.{M}
use lens.Ui.Render.{Row}
use lens.Ui.Render

abbrev pub display_pool_list : Bool → M (Unit {0})
display_pool_list = Render.display_pool_list

abbrev pub display_pool_edit : Bool → M (Unit {0})
display_pool_edit = Render.display_pool_edit

abbrev display_pool_make : Bool → M (Unit {0})
display_pool_make = Render.display_pool_make

abbrev render_user_info : M (Unit {0})
render_user_info = Render.render_user_info

abbrev render_secret_expiration_default : M (Unit {0})
render_secret_expiration_default = Render.render_secret_expiration_default

abbrev pub render_pool_list : List (List Row) → M (Unit {0})
render_pool_list = Render.render_pool_list

abbrev render_bucket_list : M (Unit {0})
render_bucket_list = Render.render_bucket_list

abbrev render_secret_list : M (Unit {0})
render_secret_list = Render.render_secret_list

abbrev render_secret_list_by_policy : String → List Key → M (Unit {0})
render_secret_list_by_policy = Render.render_secret_list_by_policy

abbrev render_buckets_directory : M (Unit {0})
render_buckets_directory = Render.render_buckets_directory

abbrev render_response : M (Unit {0})
render_response = Render.render_response
