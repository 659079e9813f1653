-- ===== src/GuestPc/Samples.antt =====
-- A small map and a process that holds one fragment with it.
use x87sidecar.Common.{
  ℕ, zero, suc, ◌-◌, ◌/◌, ◌%◌, List, [], ◌∷◌, ◌++◌, replicate, take, drop, none, some,
  if◌then◌else◌, ◌==◌, leb,
}
use x87sidecar.GuestPc.Reader.{Reader}
use x87sidecar.GuestPc.Step.{RiceK, deltas}
use x87sidecar.GuestPc.Map.{Header}
use x87sidecar.GuestPc.Tree.{Fragment}
use x87sidecar.GuestPc.TreeLaws.{Tree, leaf, branch}
use x87sidecar.GuestPc.Codes.{Code, plain, flagged, coded}

abbrev pub bytes_of : ℕ → ℕ → List ℕ
bytes_of zero v = []
bytes_of (suc n) v = (v % 256) ∷ bytes_of n (v / 256)

abbrev pub small_rice : RiceK
small_rice = record { k1 = 2; k2 = 1 }

abbrev pub small_codes : List Code
small_codes = plain (coded (deltas 1 3)) ∷ flagged 2 5 (coded (deltas 2 1)) ∷ []

abbrev pub zeros : ℕ → List ℕ
zeros n = replicate n 0

-- A header, one chunk from (0, 8) with two steps, and a stream of one word.
abbrev pub small_map : List ℕ
small_map =
    (0 ∷ 2 ∷ 1 ∷ 0 ∷ zeros 12)
    ++ (bytes_of 4 52
        ++ (bytes_of 4 1
            ++ (bytes_of 4 32
                ++ (bytes_of 4 48
                    ++ (bytes_of 4 0
                        ++ (bytes_of 4 8
                            ++ (bytes_of 4 0 ++ (bytes_of 4 2 ++ (154 ∷ 108 ∷ 4 ∷ 0 ∷ [])))))))))

abbrev pub small_header : Header
small_header = record {
  rice_k = small_rice;
  variant = 0;
  field_08 = 0;
  field_0c = 0;
  total_size = 52;
  chunk_count = 1;
  chunks_offset = 32;
  stream_offset = 48;
}

abbrev pub small_fragment : Fragment
small_fragment = record {
  node = 0x2000;
  x86_begin = 0x400000;
  arm_begin = 0x10000;
  map = 0x3000;
  x86_size = 16;
  arm_size = 64;
  kind = 4;
}

-- The window of its node, with no subtrees.
abbrev pub small_window : List ℕ
small_window =
    zeros 24
    ++ (bytes_of 8 0x400000
        ++ (zeros 8
            ++ (bytes_of 8 0x10000
                ++ (zeros 24
                    ++ (bytes_of 8 4
                        ++ (bytes_of 8 0x3000
                            ++ (zeros 16 ++ (bytes_of 4 16 ++ bytes_of 4 64))))))))

-- The root slot is at 0x1000 + 0x100.
abbrev pub small_reader : Reader
small_reader addr len =
    if addr == 0x1100
    then some (bytes_of 8 0x2000)
    else if addr == 0x2030
    then some small_window
    else if leb 0x3000 addr
    then some (take len (drop (addr - 0x3000) small_map))
    else none

abbrev pub small_tree : Tree
small_tree = branch leaf small_fragment leaf
