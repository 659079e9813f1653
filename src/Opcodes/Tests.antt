-- ===== src/Opcodes/Tests.antt =====
-- A host table for two names.
use x87sidecar.Common.{ℕ, ◌≡◌, ◌==◌, refl, List, [], ◌∷◌, replicate, Option, none, some, arith}
use x87sidecar.Opcodes.Table.{
  HostTable, host_to_internal, internal_to_host, set_host_table, enter_all, find_name,
  first_unmapped_required, first_unmapped,
}
use x87sidecar.Opcodes.Laws.{host_to_internal-internal_to_host}

-- Opcode 0 has the name 7 and opcode 1 the name 8; the host lists 8, an unknown name, and 7.
abbrev two_names : List (Option ℕ)
two_names = some 7 ∷ some 8 ∷ replicate 700 none

abbrev three_hosts : List ℕ
three_hosts = 8 ∷ 9 ∷ 7 ∷ []

two_table : HostTable
two_table = set_host_table ℕ (λ a b. a == b) two_names three_hosts

seven_mapped : internal_to_host two_table 0 ≡ 2
unfolding two_table internal_to_host set_host_table enter_all find_name
seven_mapped = refl

-- The table lacks the x87 opcodes, of which fcmovb is the first.
fcmovb_missing : first_unmapped_required two_table ≡ 0x25
unfolding two_table first_unmapped_required first_unmapped set_host_table enter_all find_name
fcmovb_missing = refl

host_to_internal-internal_to_host_example :
    host_to_internal two_table (internal_to_host two_table 0) ≡ 0
unfolding two_table
host_to_internal-internal_to_host_example =
    host_to_internal-internal_to_host ℕ (λ a b. a == b) two_names three_hosts 0 (omega arith)
      (omega arith) (λ e. omega (arith, seven_mapped, e))
