-- ===== src/Tests/Caches.antt =====
-- Examples for the cache of src/function_cache.c.
use plcontainer.Common.{ℕ, List, [], ◌∷◌, ◌≡◌, refl, take, arith}
use plcontainer.FunctionCache.{
  ProcInfo, FunctionCache, function_cache_init, function_cache_get, function_cache_put,
  free_proc_info,
}
use plcontainer.FunctionCache.Search.{padded, lookup, without, used, displaced}
use plcontainer.FunctionCache.Refine.{
  Represents, function_cache_get-Represents, function_cache_put-Represents,
}

abbrev proc : ℕ → ProcInfo
proc n = record { address = n; func_oid = n }

abbrev two_procs : FunctionCache
two_procs = function_cache_put (proc 20) (function_cache_put (proc 10) function_cache_init)

abbrev recent : List ProcInfo
recent = proc 20 ∷ proc 10 ∷ []

two_procs-Represents : Represents two_procs recent
unfolding function_cache_put function_cache_init padded
two_procs-Represents = record { holds = refl; fits = omega arith }

function_cache_get-Represents_example :
    ((function_cache_get 10 two_procs).0 ≡ lookup 10 recent)
    × Represents (function_cache_get 10 two_procs).1 (used 10 recent)
    × ((function_cache_get 10 two_procs).1.freed ≡ two_procs.freed)
function_cache_get-Represents_example =
    function_cache_get-Represents 10 two_procs recent two_procs-Represents

function_cache_put-Represents_example :
    Represents (function_cache_put (proc 30) two_procs) (take 5 (proc 30 ∷ without 30 recent))
    × ((function_cache_put (proc 30) two_procs).freed
        ≡ (free_proc_info (displaced 30 recent) two_procs).freed)
function_cache_put-Represents_example =
    function_cache_put-Represents (proc 30) two_procs recent two_procs-Represents
