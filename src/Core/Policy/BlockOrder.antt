-- ===== src/Core/Policy/BlockOrder.antt =====
-- The order in which src/core/policy.cpp applies the blocks that match a file.
use mediadiff.Base.{
  All, Bool-cases, List, Text, [], ap, arith, false, inl, inr, ltb_ℤ, refl, subst, sym, true, ◌++◌,
  ◌<ℤ◌, ◌∷◌, ◌≡◌,
}
use mediadiff.Core.Glob.{glob_matches_path}
use mediadiff.Core.Policy.{OverrideBlock}
use mediadiff.Core.Policy.Resolve.{in_file_order, insert_block, matching_blocks}

-- The block stands last.
abbrev pub EndsWith : OverrideBlock → List OverrideBlock → Type 0
EndsWith block blocks = (earlier : List OverrideBlock) × (blocks ≡ earlier ++ block ∷ [])

-- Every block stands ahead of the other in the file.
abbrev pub AllEarlier : OverrideBlock → List OverrideBlock → Type 0
AllEarlier block blocks = All (λ o. o.file_order <ℤ block.file_order) blocks

insert_block-AllEarlier :
    (block x : OverrideBlock) (blocks : List OverrideBlock)
    → x.file_order <ℤ block.file_order
    → AllEarlier block blocks
    → AllEarlier block (insert_block x blocks)
unfolding insert_block
insert_block-AllEarlier block x [] h k = (h, tt)
insert_block-AllEarlier block x (o ∷ blocks) h (ko, k) =
    elim (Bool-cases (ltb_ℤ o.file_order x.file_order)) [
      | inl e ↦ rw e (ko, insert_block-AllEarlier block x blocks h k)
      | inr e ↦ rw e (h, (ko, k))
    ]

in_file_order-AllEarlier :
    (block : OverrideBlock) (blocks : List OverrideBlock)
    → AllEarlier block blocks
    → AllEarlier block (in_file_order blocks)
unfolding in_file_order
in_file_order-AllEarlier block [] k = tt
in_file_order-AllEarlier block (x ∷ blocks) (h, k) =
    insert_block-AllEarlier block x (in_file_order blocks) h
      (in_file_order-AllEarlier block blocks k)

insert_block-last :
    (block : OverrideBlock) (blocks : List OverrideBlock)
    → AllEarlier block blocks
    → EndsWith block (insert_block block blocks)
unfolding insert_block
insert_block-last block [] k = ([], refl)
insert_block-last block (o ∷ blocks) (h, k) =
    let e : ltb_ℤ o.file_order block.file_order ≡ true = ground (arith, h) in
    let ih = insert_block-last block blocks k in rw e (o ∷ ih.0, ap (λ rest. o ∷ rest) ih.1)

insert_block-EndsWith :
    (block x : OverrideBlock) (earlier : List OverrideBlock)
    → x.file_order <ℤ block.file_order
    → EndsWith block (insert_block x (earlier ++ block ∷ []))
unfolding insert_block
insert_block-EndsWith block x [] h =
    let e : ltb_ℤ block.file_order x.file_order ≡ false = ground (arith, h) in rw e (x ∷ [], refl)
insert_block-EndsWith block x (o ∷ earlier) h =
    elim (Bool-cases (ltb_ℤ o.file_order x.file_order)) [
      | inl e ↦
          let ih = insert_block-EndsWith block x earlier h in
          rw e (o ∷ ih.0, ap (λ rest. o ∷ rest) ih.1)
      | inr e ↦ rw e (x ∷ o ∷ earlier, refl)
    ]

pub in_file_order-EndsWith :
    (block : OverrideBlock) (xs ys : List OverrideBlock)
    → AllEarlier block xs
    → AllEarlier block ys
    → EndsWith block (in_file_order (xs ++ block ∷ ys))
unfolding in_file_order
in_file_order-EndsWith block [] ys hx hy =
    insert_block-last block (in_file_order ys) (in_file_order-AllEarlier block ys hy)
in_file_order-EndsWith block (x ∷ xs) ys (h, hx) hy =
    let ih = in_file_order-EndsWith block xs ys hx hy in
    subst (λ blocks. EndsWith block (insert_block x blocks)) (sym ih.1)
      (insert_block-EndsWith block x ih.0 h)

pub matching_blocks-AllEarlier :
    (path : Text) (block : OverrideBlock) (blocks : List OverrideBlock)
    → AllEarlier block blocks
    → AllEarlier block (matching_blocks path blocks)
unfolding matching_blocks
matching_blocks-AllEarlier path block [] k = tt
matching_blocks-AllEarlier path block (o ∷ blocks) (h, k) =
    elim (Bool-cases (glob_matches_path o.path_glob path)) [
      | inl e ↦ rw e (h, matching_blocks-AllEarlier path block blocks k)
      | inr e ↦ rw e (matching_blocks-AllEarlier path block blocks k)
    ]

pub matching_blocks-split :
    (path : Text) (block : OverrideBlock) (xs ys : List OverrideBlock)
    → glob_matches_path block.path_glob path ≡ true
    → matching_blocks path (xs ++ block ∷ ys)
      ≡ matching_blocks path xs ++ block ∷ matching_blocks path ys
unfolding matching_blocks
matching_blocks-split path block [] ys e = rw e refl
matching_blocks-split path block (x ∷ xs) ys e =
    let ih = matching_blocks-split path block xs ys e in
    elim (Bool-cases (glob_matches_path x.path_glob path)) [
      | inl m ↦ rw m (ap (λ rest. x ∷ rest) ih)
      | inr n ↦ rw n ih
    ]
