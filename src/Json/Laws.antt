-- ===== src/Json/Laws.antt =====
-- Reading a dict after it was written.
use xemu_perf_tests.Base.{not, ◌&&◌, String, str_eq, none, some, ◌≡◌, refl, arith, if◌then◌else◌}
use xemu_perf_tests.Json.{Json, Fields, end, field, get, has, put, pop}

pub get-put :
    (j k : String) (v : Json) (fs : Fields)
    → get j (put k v fs) ≡ (if str_eq j k then some v else get j fs)
get-put j k v end = refl
get-put j k v (field i w fs) = ground (arith, get-put j k v fs)

pub get-pop :
    (j k : String) (fs : Fields) → get j (pop k fs) ≡ (if str_eq j k then none else get j fs)
get-pop j k end = ground arith
get-pop j k (field i w fs) = ground (arith, get-pop j k fs)

pub has-pop : (j k : String) (fs : Fields) → has j (pop k fs) ≡ (has j fs && not (str_eq j k))
has-pop j k end = refl
has-pop j k (field i w fs) = ground (arith, has-pop j k fs)
