-- ===== src/Opcodes/Table.antt =====
-- OpcodeCompatibility.cpp with a host table. The names of the translator's opcodes, kOpcodeNames,
-- are an argument, as are the type of names and their equality.
use x87sidecar.Common.{
  ℕ, zero, suc, ◌%◌, ◌^◌, Bool, true, false, ◌&&◌, not, if◌then◌else◌, ◌==◌, List, [], ◌∷◌, length,
  replicate, get_elem?, set, Option, none, some,
}

-- kOpcodeUnmapped.
abbrev pub unmapped : ℕ
unmapped = 0xffff

-- kOpcodeName_arpl.
abbrev pub arpl : ℕ
arpl = 0x29c

-- g_table_active, g_host_to_internal, g_internal_to_host and g_host_arpl.
pub record HostTable : Type 0 where
  pub table_active : Bool
  pub to_internal : List ℕ
  pub to_host : List ℕ
  pub host_arpl : ℕ

abbrev pub or_unmapped : Option ℕ → ℕ
or_unmapped none = unmapped
or_unmapped (some x) = x

-- An entry of a vector, kOpcodeUnmapped past its end.
abbrev pub entry_at : List ℕ → ℕ → ℕ
entry_at xs i = or_unmapped (get_elem? xs i)

-- opcode_host_to_internal with an active table.
unfoldable pub host_to_internal : HostTable → ℕ → ℕ
host_to_internal t opcode = if opcode == t.host_arpl then arpl else entry_at t.to_internal opcode

-- opcode_internal_to_host with an active table.
unfoldable pub internal_to_host : HostTable → ℕ → ℕ
internal_to_host t opcode = entry_at t.to_host opcode

-- opcode_clear_host_table.
unfoldable pub clear_host_table : HostTable → HostTable
clear_host_table t = record {
  table_active = false;
  to_internal = [];
  to_host = [];
  host_arpl = arpl;
}

-- The required opcodes: the two x87 ranges and kBridged.
abbrev pub range : ℕ → ℕ → List ℕ
range lo zero = []
range lo (suc n) = lo ∷ range (suc lo) n

abbrev pub bridged : List ℕ
bridged =
    0x291 ∷ 0x138 ∷ 0x121 ∷ 0x15c ∷ 0x158 ∷ 0x159 ∷ 0x5 ∷ 0x6c ∷ 0x6 ∷ 0x49 ∷ 0x74 ∷ 0x33 ∷ 0x23
    ∷ []

-- The first of these opcodes that has no host number, or `rest`.
unfoldable pub first_unmapped : HostTable → List ℕ → ℕ → ℕ
first_unmapped t [] rest = rest
first_unmapped t (op ∷ ops) rest =
    let later = first_unmapped t ops rest in if entry_at t.to_host op == unmapped then op else later

-- opcode_first_unmapped_required.
unfoldable pub first_unmapped_required : HostTable → ℕ
first_unmapped_required t =
    if t.table_active
    then first_unmapped t (range 0x25 12)
        (first_unmapped t (range 0xbc 80) (first_unmapped t bridged unmapped))
    else unmapped

module _ (Name : Type 0) (same_name : Name → Name → Bool) where
  abbrev pub names_it : Name → Option Name → Bool
  names_it name none = false
  names_it name (some n) = same_name n name

  -- internalByName.find, where emplace keeps the first of equal names: from index `i` on.
  unfoldable pub find_name : ℕ → List (Option Name) → Name → Option ℕ
  find_name i [] name = none
  find_name i (n ∷ ns) name =
      let later = find_name (suc i) ns name in
      if not (i == arpl) && names_it name n then some i else later

  -- The two vectors in the loop of opcode_set_host_table.
  pub record Maps : Type 0 where
    pub host_side : List ℕ
    pub internal_side : List ℕ

  abbrev pub enter : ℕ → Option ℕ → Maps → Maps
  enter h none m = m
  enter h (some op) m = record {
    host_side = set m.host_side h op;
    internal_side =
        if entry_at m.internal_side op == unmapped
        then set m.internal_side op (h % 2 ^ 16)
        else m.internal_side;
  }

  -- The loop over the host's names from number `h` on.
  unfoldable pub enter_all : List (Option Name) → ℕ → List Name → Maps → Maps
  enter_all names h [] m = m
  enter_all names h (n ∷ ns) m = enter_all names (suc h) ns (enter h (find_name 0 names n) m)

  -- opcode_set_host_table.
  unfoldable pub set_host_table : List (Option Name) → List Name → HostTable
  set_host_table names host_names =
      let m = enter_all names 0 host_names (record {
        host_side = replicate (length host_names) unmapped;
        internal_side = replicate (length names) unmapped;
      }) in
      record {
        table_active = true;
        to_internal = m.host_side;
        to_host = set m.internal_side arpl (length host_names % 2 ^ 16);
        host_arpl = length host_names % 2 ^ 16;
      }
