-- ===== src/Ext2/Superblock/Checks.antt =====
-- ext2/src/superblock.rs: what a superblock that is accepted promises.
use rust_so_kernel.Prelude.{
  ℕ, ◌<◌, ◌≤◌, ◌≡◌, List, length, arith, Bool-cases, inl, inr, from_le, part, ◌==◌, ltb, ==→eq,
}
use rust_so_kernel.Prelude.Bits.{bit_clear}
use rust_so_kernel.Ext2.{ok, ok_inj}
use rust_so_kernel.Ext2.Superblock.{Superblock, parse_superblock, geometry, rev_field}

pub record IsUsable (sb : Superblock) : Type 0 where
  pub inodes_per_group : 0 < sb.inodes_per_group
  pub blocks_per_group : 0 < sb.blocks_per_group
  pub inode_size : 0 < sb.inode_size
  pub num_groups : 0 < sb.num_groups
  pub first_ino : 0 < sb.first_ino

-- What the four tests of Superblock::parse let through.
pub parse_superblock-eq :
    (raw : List ℕ) (sb : Superblock)
    → parse_superblock raw ≡ ok sb
    → (1024 ≤ length raw)
      × (from_le (part 56 2 raw) ≡ 61267)
      × (0 < from_le (part 32 4 raw))
      × (geometry raw ≡ sb)
unfolding parse_superblock
parse_superblock-eq raw sb h = elim (Bool-cases (ltb (length raw) 1024)) [
  | inl short ↦ absurd (let h' = rw (short, parse_superblock) at h in cc)
  | inr long ↦ elim (Bool-cases (from_le (part 56 2 raw) == 61267)) [
    | inr other ↦ absurd (let h' = rw (long, other, parse_superblock) at h in cc)
    | inl magic ↦ elim (Bool-cases (bit_clear 1 (rev_field 0 96 4 raw) == 0)) [
      | inr more ↦ absurd (let h' = rw (long, magic, more, parse_superblock) at h in cc)
      | inl known ↦ elim (Bool-cases (from_le (part 32 4 raw) == 0)) [
        | inl none ↦ absurd (let h' = rw (long, magic, known, none, parse_superblock) at h in cc)
        | inr some ↦
            let h' : ok (geometry raw) ≡ ok sb =
              rw (long, magic, known, some, parse_superblock) at h in
            (ground arith, ==→eq _ _ magic, ground arith, ok_inj h')
      ]
    ]
  ]
]
