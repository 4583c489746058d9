-- ===== src/Links.antt =====
-- src/list.c and include/enet6/list.h: doubly linked rings of nodes. An address is a number; a list is
-- the address of its sentinel.
pub mod Rings
pub mod Refinement
pub mod Moving
use enet.Base.{ℕ, zero, suc, ◌+◌, Bool, true, false, Option, none, some, ◌==◌, if◌then◌else◌}
use enet.State.{update}

-- The fields of all nodes: `ENetListNode`
pub record Links : Type 0 where
  pub next : ℕ → ℕ
  pub previous : ℕ → ℕ

abbrev pub set_next : ℕ → ℕ → Links → Links
set_next node value h = record h { next = update h.next node value }

abbrev pub set_previous : ℕ → ℕ → Links → Links
set_previous node value h = record h { previous = update h.previous node value }

-- `enet_list_clear`
unfoldable pub clear : ℕ → Links → Links
clear list h = set_previous list list (set_next list list h)

-- `enet_list_insert`: `node` in front of `position`
unfoldable pub insert : ℕ → ℕ → Links → Links
insert position node h =
    let h₁ = set_previous node (h.previous position) h in
    let h₂ = set_next node position h₁ in
    let h₃ = set_next (h₂.previous node) node h₂ in set_previous position node h₃

-- `enet_list_remove`
unfoldable pub remove : ℕ → Links → Links
remove position h =
    let h₁ = set_next (h.previous position) (h.next position) h in
    set_previous (h₁.next position) (h₁.previous position) h₁

-- `enet_list_move`: the nodes from `first` to `last` in front of `position`
unfoldable pub move : ℕ → ℕ → ℕ → Links → Links
move position first last h =
    let h₁ = set_next (h.previous first) (h.next last) h in
    let h₂ = set_previous (h₁.next last) (h₁.previous first) h₁ in
    let h₃ = set_previous first (h₂.previous position) h₂ in
    let h₄ = set_next last position h₃ in
    let h₅ = set_next (h₄.previous first) first h₄ in set_previous position last h₅

-- `enet_list_size`, from a node on; the rounds are fuel, and `none` is a loop that is not over.
unfoldable pub size_from : ℕ → ℕ → ℕ → Links → ℕ → Option ℕ
size_from zero list position h size = none
size_from (suc fuel) list position h size =
    let rest = size_from fuel list (h.next position) h (size + 1) in
    if position == list then some size else rest

unfoldable pub list_size : ℕ → ℕ → Links → Option ℕ
list_size fuel list h = size_from fuel list (h.next list) h 0
