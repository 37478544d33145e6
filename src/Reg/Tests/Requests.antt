-- ===== src/Reg/Tests/Requests.antt =====
-- Requests that are served, and the theorems on them.
use mathlib.Core.List.{Mem, Perm}
use lens.Prelude.{◌+◌, String, ◌≡◌, ◌≢◌, ◌⊎◌, refl, true, List, [], ◌∷◌, map, some, arith, eq_iff}
use lens.Js.Value.{str}
use lens.Ui.Code.{final}
use lens.Ui.Render.{bucket_row}
use lens.Ui.Data.{set_pool_data}
use lens.Ui.Spec.{Desc, shown_key}
use lens.Ui.Spec.Division.{shown_keys}
use lens.Ui.Tests.{page}
use lens.Reg.Flow.{returned, refused, crashed, quits}
use lens.Reg.Records.{Db, SecretRecord, bucket_rw}
use lens.Reg.Memory.{memory, content_of, entry}
use lens.Reg.World.{World, HttpRequest, MakeBucketRequest, days, unix}
use lens.Reg.Desc.{secret_to_ui, pool_prop_response}
use lens.Reg.Checks.{decode_request_body}
use lens.Reg.Handlers.{make_bucket, delete_secret, list_pool}
use lens.Reg.Isolation.{IsKeyed, Spared}
use lens.Reg.Isolation.Calls.{Call, makes_bucket, deletes_bucket, serve, Granted, serve-Spared}
use lens.Reg.Made.{make_bucket-bucket_row}
use lens.Reg.Orphan.{list_pool-orphan}
use lens.Reg.Probe.{make_bucket-no_probe}
use lens.Reg.Answers.{answer-perm}
use lens.Reg.Deleted.{delete_secret-perm}
use lens.Reg.Answers.Keys.{Distinct, AreKeys}
use lens.Reg.Tests.{
  world, tables, request, user, pool_record, ann_pool, bob_pool, ann_probe, bob_probe, ann_key,
  registrar,
}

foreign_pool :
    (make_bucket memory world (request "bob" "bucket1") ann_pool tables).0 ≡ refused 403 "No pool"
unfolding registrar
foreign_pool = refl

taken_bucket :
    (make_bucket memory world (request "bob" "bucket0") bob_pool tables).0
    ≡ refused 409 "Bucket already taken"
unfolding registrar
taken_bucket = refl

-- Without the record of the tokens the check stops by a null pointer.
no_tokens :
    (make_bucket memory world
      (request "ann" "bucket1")
      ann_pool
      (record tables { csrf_tokens = [] })).0
    ≡ crashed
unfolding registrar
no_tokens = refl

made_bucket :
    map (λ e. e.name) (make_bucket memory world (request "ann" "bucket1") ann_pool tables).1.buckets
    ≡ "bucket1" ∷ "bucket0" ∷ []
unfolding registrar
made_bucket = refl

-- The key for probing can be deleted by its owner; a new bucket then stops the service.
no_probe :
    (make_bucket memory world
      (request "ann" "bucket1")
      ann_pool
      (delete_secret memory world (request "ann" "") ann_pool ann_probe tables).1).0
    ≡ quits
unfolding registrar
no_probe = refl

abbrev unprobed : Db memory
unprobed = record tables { secrets = [] }

make_bucket-no_probe_example :
    make_bucket memory world (request "ann" "bucket1") ann_pool unprobed ≡ (
      quits,
      record unprobed {
        buckets =
            memory.set "bucket1"
              (record {
                pool = ann_pool;
                bucket = "bucket1";
                bucket_policy = bucket_rw;
                expiration_time = unix (world.now + days 100);
                timestamp = 1686755715;
              })
              unprobed.buckets;
      },
    )
unfolding registrar
make_bucket-no_probe_example =
    make_bucket-no_probe memory world (request "ann" "bucket1") ann_pool unprobed unprobed
      (user "ann") (pool_record ann_pool "ann" ann_probe)
      (record { bucket = "bucket1"; bucket_policy = "public" }) bucket_rw refl refl refl refl refl
      refl refl

-- Of another user, and with a name that is taken.
abbrev requests : List (World × HttpRequest × Call)
requests =
    (world, request "bob" "bucket1", makes_bucket ann_pool)
    ∷ (world, request "bob" "", deletes_bucket bob_pool "bucket0")
    ∷ (world, request "bob" "bucket2", makes_bucket bob_pool)
    ∷ []

tables-IsKeyed : IsKeyed memory tables
unfolding IsKeyed content_of
tables-IsKeyed key d e =
    ground (arith, e, eq_iff ann_probe key, eq_iff "kkkkkkkkkkkkkkkkkkkk" key, eq_iff bob_probe key)

ann_named : ann_pool ≢ ""
ann_named = λ e. ground (arith, e, eq_iff ann_pool "")

bob_named : bob_pool ≢ ""
bob_named = λ e. ground (arith, e, eq_iff bob_pool "")

serve-Spared_example :
    IsKeyed memory (serve memory requests tables)
    × (Spared memory ann_pool tables (serve memory requests tables)
        ⊎ Granted memory ann_pool requests tables)
serve-Spared_example =
    serve-Spared memory ann_pool requests tables (ann_named, (bob_named, (bob_named, tt)))
      tables-IsKeyed

orphaned-keyed :
    (key : String) (d : SecretRecord) → memory.get key tables.secrets ≡ some d → d.access_key ≡ key
unfolding IsKeyed
orphaned-keyed key d e = tables-IsKeyed key d e

abbrev ann_desc : Desc
ann_desc = record {
  pool_name = ann_pool;
  buckets_directory = ann_pool;
  owner_uid = "ann";
  owner_gid = "g";
  buckets =
      record {
        pool = ann_pool;
        name = "bucket0";
        bkt_policy = "none";
        modification_time = 1686755000;
      }
      ∷ [];
  secrets = secret_to_ui ann_key ∷ [];
  probe_key = ann_probe;
  expiration_time = 1709164800;
  online_status = true;
  user_enabled_status = true;
  minio_state = "ready";
  minio_reason = "-";
  modification_time = 1686755000;
}

scanned_once : Distinct (memory.scan "*" tables.secrets)
unfolding registrar
scanned_once = (
  (
    (λ e. ground (arith, e, eq_iff ann_probe "kkkkkkkkkkkkkkkkkkkk")),
    ((λ e. ground (arith, e, eq_iff ann_probe bob_probe)), tt),
  ),
  (((λ e. ground (arith, e, eq_iff "kkkkkkkkkkkkkkkkkkkk" bob_probe)), tt), (tt, tt)),
)

answer-perm_example :
    (ds : List SecretRecord) × AreKeys memory ann_pool tables.secrets ds
    × Perm
        (shown_keys (final (set_pool_data (pool_prop_response 1686755715 ann_desc) page)))
        (map shown_key (map secret_to_ui ds))
unfolding registrar
answer-perm_example =
    answer-perm memory world ann_pool tables ann_desc page tables-IsKeyed scanned_once refl
      ((omega arith, tt), omega arith, omega arith)

abbrev emptied_desc : Desc
emptied_desc = record ann_desc { secrets = [] }

left_once : Distinct (memory.scan "*" (memory.del "kkkkkkkkkkkkkkkkkkkk" tables.secrets))
unfolding registrar
left_once = (((λ e. ground (arith, e, eq_iff ann_probe bob_probe)), tt), (tt, tt))

delete_secret-perm_example :
    ((c : SecretRecord) × (memory.get "kkkkkkkkkkkkkkkkkkkk" tables.secrets ≡ some c)
      × (c.pool ≡ ann_pool))
    × ((ds : List SecretRecord) × AreKeys memory ann_pool
          (memory.del "kkkkkkkkkkkkkkkkkkkk" tables.secrets)
          ds
        × Perm
            (shown_keys (final (set_pool_data (pool_prop_response 1686755715 emptied_desc) page)))
            (map shown_key (map secret_to_ui ds)))
unfolding registrar
delete_secret-perm_example =
    delete_secret-perm memory world (request "ann" "") ann_pool "kkkkkkkkkkkkkkkkkkkk" tables
      emptied_desc page tables-IsKeyed left_once refl (tt, omega arith, omega arith)

-- Without the record of one of the users.
abbrev orphaned : Db memory
orphaned = record tables { users = entry "ann" (user "ann") ∷ [] }

list_pool-orphan_example :
    (list_pool memory world (request "ann" "") "" orphaned).0 ≢ returned (ann_desc ∷ [])
unfolding registrar
list_pool-orphan_example =
    list_pool-orphan memory world (request "ann" "") orphaned orphaned bob_pool
      (pool_record bob_pool "bob" bob_probe) refl refl refl orphaned-keyed
      (ann_named, (bob_named, tt)) (ann_desc ∷ [])

list_of_orphan : (list_pool memory world (request "ann" "") "" orphaned).0 ≡ crashed
unfolding registrar
list_of_orphan = refl

abbrev made_desc : Desc
made_desc = record ann_desc {
  buckets =
      record {
        pool = ann_pool;
        name = "bucket1";
        bkt_policy = "public";
        modification_time = 1686755715;
      }
      ∷ ann_desc.buckets;
}

make_bucket-bucket_row_example :
    (args : MakeBucketRequest) × (decode_request_body memory world (world.decode_bucket "bucket1")
      ≡ some args)
    × Mem
        (bucket_row (str args.bucket) (str args.bucket_policy))
        (final (set_pool_data (pool_prop_response 1686755715 made_desc) page)).dom.list_of_buckets
unfolding registrar
make_bucket-bucket_row_example =
    make_bucket-bucket_row memory world (request "ann" "bucket1") ann_pool tables made_desc page
      refl ((omega arith, tt), omega arith, omega arith)
