-- ===== src/FunctionCache.antt =====
-- The cache of procedures of src/function_cache.c: `plcFunctionCache`, most recently used first.
pub mod Shift
pub mod Search
pub mod Refine
use plcontainer.Common.{
  ℕ, zero, suc, Bool, true, false, Option, none, some, List, [], ◌∷◌, ◌++◌, length, get_elem?, set,
  replicate, ◌==◌, if◌then◌else◌,
}

-- PLC_FUNCTION_CACHE_SIZE
abbrev pub cache_size : ℕ
cache_size = 5

-- Of a `plcProcInfo`, its address and its `funcOid`.
pub record ProcInfo : Type 0 where
  pub address : ℕ
  pub func_oid : ℕ

-- `freed` are the procedures that `free_proc_info` was called for, the last one first.
pub record FunctionCache : Type 0 where
  pub slots : List (Option ProcInfo)
  pub initialized : Bool
  pub freed : List ProcInfo

-- The statics before the first call.
unfoldable pub function_cache_init : FunctionCache
function_cache_init = record { slots = replicate cache_size none; initialized = false; freed = [] }

-- `a[i]`
abbrev pub slot : List (Option ProcInfo) → ℕ → Option ProcInfo
slot a i = elim (get_elem? a i) [ none ↦ none | some p ↦ p ]

-- `for (; i > 0; i--) a[i] = a[i - 1];`
unfoldable pub shift_right : ℕ → List (Option ProcInfo) → List (Option ProcInfo)
shift_right zero a = a
shift_right (suc i) a = shift_right i (set a (suc i) (slot a i))

unfoldable pub function_cache_up : ℕ → List (Option ProcInfo) → List (Option ProcInfo)
unfolding shift_right
function_cache_up zero a = a
function_cache_up (suc i) a = set (shift_right (suc i) a) 0 (slot a (suc i))

abbrev pub holds : ℕ → Option ProcInfo → Bool
holds func_oid none = false
holds func_oid (some p) = p.func_oid == func_oid

-- The index at which the loop of `function_cache_get` stops.
unfoldable pub find : ℕ → List (Option ProcInfo) → Option ℕ
find func_oid [] = none
find func_oid (p ∷ a) =
    let later = find func_oid a in
    if holds func_oid p then some 0 else elim later [ none ↦ none | some i ↦ some (suc i) ]

abbrev pub ready_slots : FunctionCache → List (Option ProcInfo)
ready_slots c = if c.initialized then c.slots else replicate cache_size none

unfoldable pub get_at :
    FunctionCache → List (Option ProcInfo) → Option ℕ → Option ProcInfo × FunctionCache
unfolding function_cache_up
get_at c a none = (none, record c { slots = a; initialized = true })
get_at c a (some i) = (slot a i, record c { slots = function_cache_up i a; initialized = true })

unfoldable pub function_cache_get : ℕ → FunctionCache → Option ProcInfo × FunctionCache
unfolding find get_at
function_cache_get func_oid c = get_at c (ready_slots c) (find func_oid (ready_slots c))

abbrev pub free_proc_info : Option ProcInfo → FunctionCache → FunctionCache
free_proc_info none c = c
free_proc_info (some p) c = record c { freed = p ∷ c.freed }

unfoldable pub put_after_get : ProcInfo → Option ProcInfo × FunctionCache → FunctionCache
unfolding shift_right
put_after_get func (none, c) =
    let c = free_proc_info (slot c.slots 4) c in
    record c { slots = set (shift_right 4 c.slots) 0 (some func) }
put_after_get func (some old, c) =
    let c = free_proc_info (some old) c in record c { slots = set c.slots 0 (some func) }

unfoldable pub function_cache_put : ProcInfo → FunctionCache → FunctionCache
unfolding function_cache_get put_after_get
function_cache_put func c = put_after_get func (function_cache_get func.func_oid c)
