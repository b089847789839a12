-- ===== src/Attach/Items.antt =====
-- count_items on the answers that a tree prints.
use aerosuite.Base.{suc, ◌≡◌, refl, Bytes, codes, some, ◌++◌, length, arith}
use aerosuite.Xml.{open_tag, close_tag, split_first}
use aerosuite.Xml.Tree.{Content, print, IsWellFormed, IsName, is_name, is_name-IsName}
use aerosuite.Xml.Printed.{extract_balanced-print}
use aerosuite.Xml.Elements.{items, OnlyNamed, elements-print}
use aerosuite.Attach.Commands.{count_items}

item_IsName : IsName (codes "item")
unfolding is_name
item_IsName = is_name-IsName (codes "item") refl

set_IsName : IsName (codes "networkInterfaceSet")
unfolding is_name
set_IsName = is_name-IsName (codes "networkInterfaceSet") refl

-- In an answer whose networkInterfaceSet holds printed elements `item`, whatever else stands in them and around
-- the set, count_items gives the number of those at the top: an `item` within an `item` does not count.
pub count_items-print :
    (xml before rest : Bytes) (x : Content)
    → IsWellFormed x
    → OnlyNamed (codes "item") x
    → split_first (open_tag (codes "networkInterfaceSet")) xml
      ≡ some (before, print x ++ (close_tag (codes "networkInterfaceSet") ++ rest))
    → count_items xml ≡ length (items x)
unfolding count_items
count_items-print xml before rest x w o e =
    rw
      (
        extract_balanced-print (codes "networkInterfaceSet") xml before x rest set_IsName w e,
        elements-print (codes "item") item_IsName x (suc (length (print x))) w o (omega arith),
      )
      refl
