-- ===== src/GuestPc/Cache.antt =====
-- guest_pc_map.cpp: Cache, its set-associative selection, and resolve with a cache.
use x87sidecar.Common.{
  ℕ, suc, ◌+◌, ◌/◌, ◌%◌, ◌^◌, Bool, true, false, ◌&&◌, ◌||◌, not, if◌then◌else◌, ◌==◌, ltb, List,
  [], ◌∷◌, replicate, get_elem?, set, none, some,
}
use x87sidecar.GuestPc.Reader.{u64_mod}
use x87sidecar.GuestPc.Map.{MapPoint}
use x87sidecar.GuestPc.Tree.{Fragment, contains}

-- Cache::Entry.
pub record Entry : Type 0 where
  pub fragment : Fragment
  pub arm_pc : ℕ
  pub x86_pc : ℕ
  pub point : MapPoint
  pub stamp : ℕ
  pub recheck : ℕ
  pub used : Bool

abbrev pub no_fragment_yet : Fragment
no_fragment_yet = record {
  node = 0;
  x86_begin = 0;
  arm_begin = 0;
  map = 0;
  x86_size = 0;
  arm_size = 0;
  kind = 0;
}

abbrev pub no_point : MapPoint
no_point = record { x86_offset = 0; arm_offset = 0; flags = 0; exact = false }

-- Entry{}.
abbrev pub empty_entry : Entry
empty_entry = record {
  fragment = no_fragment_yet;
  arm_pc = 0;
  x86_pc = 0;
  point = no_point;
  stamp = 0;
  recheck = 0;
  used = false;
}

-- Cache::Stats.
pub record Stats : Type 0 where
  pub pc_hits : ℕ
  pub fragment_hits : ℕ
  pub negative_hits : ℕ
  pub misses : ℕ
  pub stale : ℕ

abbrev pub sets_count : ℕ
sets_count = 256

abbrev pub ways : ℕ
ways = 8

-- kNegativeRecheck.
abbrev pub negative_recheck : ℕ
negative_recheck = 64

-- Cache: set `s` holds entries_[s * kWays] and those after it.
pub record Cache : Type 0 where
  pub sets : ℕ → List Entry
  pub stats : Stats
  pub clock : ℕ

-- Cache::clear.
unfoldable pub clear : Cache → Cache
clear cache = record cache { sets = λ s. replicate ways empty_entry; clock = 0 }

abbrev pub set_of : ℕ → ℕ
set_of arm_pc = arm_pc / 2 ^ 12 % sets_count

unfoldable pub matches : ℕ → Entry → Bool
matches arm_pc e =
    e.used
    && (if not (e.fragment.node == 0) then contains e.fragment arm_pc else e.arm_pc == arm_pc)

-- The loop of select from way `i` on: whether an entry matches, and its way or that of the victim.
unfoldable pub scan : ℕ → List Entry → ℕ → ℕ → ℕ → Bool × ℕ
scan arm_pc [] i victim stamp = (false, victim)
scan arm_pc (e ∷ es) i victim stamp = elim (matches arm_pc e) [
  | true ↦ (true, i)
  | false ↦ elim (not e.used || ltb e.stamp stamp) [
    | true ↦ scan arm_pc es (suc i) i e.stamp
    | false ↦ scan arm_pc es (suc i) victim stamp
  ]
]

abbrev pub first_stamp : List Entry → ℕ
first_stamp [] = 0
first_stamp (e ∷ es) = e.stamp

abbrev pub entry_in : List Entry → ℕ → Entry
entry_in es way = elim (get_elem? es way) [ none ↦ empty_entry | some e ↦ e ]

abbrev pub put : ℕ → ℕ → Entry → Cache → Cache
put s way e cache = record cache {
  sets = λ t. if t == s then set (cache.sets t) way e else cache.sets t;
}

-- The entry that select returns, as its place, with what the entry and the cache then are.
pub record Selected : Type 0 where
  pub hit : Bool
  pub way : ℕ
  pub entry : Entry
  pub cache : Cache

abbrev pub selected : ℕ → Cache → Bool × ℕ → Selected
selected s cache (hit, way) =
    let clock = (cache.clock + 1) % u64_mod in
    let e = record (entry_in (cache.sets s) way) { stamp = clock } in
    record { hit = hit; way = way; entry = e; cache = put s way e (record cache { clock = clock }) }

-- Cache::select.
unfoldable pub select : ℕ → Cache → Selected
select arm_pc cache =
    let es = cache.sets (set_of arm_pc) in
    selected (set_of arm_pc) cache (scan arm_pc es 0 0 (first_stamp es))
