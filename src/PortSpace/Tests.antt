-- ===== src/PortSpace/Tests.antt =====
-- The name table on concrete inputs: a right installed, a port that dies, a right dropped in excess.
use style9_os.Base.{◌+◌, ◌^◌, ◌<◌, ◌≡◌, refl, true, false, none, some, arith}
use style9_os.PortRights.{Rights, send_right, allows, is_empty, both}
use style9_os.PortSpace.{
  Space, new, unbind_no_deref, install, install_set, destroy_from, fill_slot, alloc_slot_locked,
  search_slot, find_free, take_slot, lookup, drop_one_right, port_type, name_is_dead, destroy,
}
use style9_os.PortSpace.Invariant.{IsSpace}
use style9_os.PortSpace.Reachable.{
  unbinds, Reach, created, stepped, installs, installs_set, types, Reach-IsSpace,
}
use style9_os.PortSpace.Balance.{has, sending, sending_once, receiving, held, taken_by, given_back}
use style9_os.PortSpace.Moves.{carried}
use style9_os.PortSpace.Balanced.{carries, Change-IsBalanced}
use style9_os.PortSpace.Names.{Installed, install-Installed, drop_one_right-excess}
use style9_os.PortSpace.DeadNames.{now, stepped_on, name_is_dead-stays}
use style9_os.PortSpace.Teardown.{held_sets, sets_given_back, notified, destroy-given_back}

-- a send right on port 7, at name 1
abbrev sender : Space
sender = (install true new (some 7) send_right).after

small : new.capacity < 2 ^ 31
unfolding new
small = omega arith

Reach-sender : Reach sender
Reach-sender = stepped created (installs true (some 7) send_right small)

Reach-IsSpace_example : IsSpace sender
Reach-IsSpace_example = Reach-IsSpace Reach-sender

sender_named : lookup sender 1 send_right ≡ some (7, send_right)
unfolding lookup install fill_slot alloc_slot_locked search_slot find_free take_slot new
sender_named = refl

install-Installed_example : Installed true new 7 send_right (install true new (some 7) send_right)
install-Installed_example = install-Installed true new 7 send_right (Reach-IsSpace created) small

sender_small : sender.capacity < 2 ^ 31
unfolding install fill_slot alloc_slot_locked search_slot find_free take_slot new
sender_small = omega arith

sender_allows : allows (sender.table 1).rights send_right ≡ true
unfolding install fill_slot alloc_slot_locked search_slot find_free take_slot new
sender_allows = refl

Change-IsBalanced_example :
    held (unbind_no_deref sender 1 send_right).after 7 sending
      + given_back (carried {ps = sender} (unbinds 1 send_right)) 7 sending
    ≡ held sender 7 sending + taken_by (carried {ps = sender} (unbinds 1 send_right)) 7 sending
Change-IsBalanced_example =
    Change-IsBalanced (carries (unbinds 1 send_right)) 7 sending Reach-sender sender_allows

-- and the port set 3 beside it
abbrev sender_and_set : Space
sender_and_set = (install_set true sender (some 3)).after

Reach-sender_and_set : Reach sender_and_set
Reach-sender_and_set = stepped Reach-sender (installs_set true (some 3) sender_small)

set_given_back : sets_given_back (destroy sender_and_set) 3 ≡ 1
unfolding sets_given_back destroy destroy_from install_set install fill_slot alloc_slot_locked
    search_slot find_free take_slot new
set_given_back = refl

destroy-given_back_example :
    (given_back (destroy sender_and_set) 7 sending ≡ held sender_and_set 7 sending)
    × (sets_given_back (destroy sender_and_set) 3 ≡ held_sets sender_and_set 3)
    × (notified (destroy sender_and_set) 7 ≡ held sender_and_set 7 sending_once)
destroy-given_back_example = destroy-given_back sender_and_set 7 3 sending Reach-sender_and_set

-- port 7 dies, and the holder of name 1 asks for its type
abbrev buried_name : Space
buried_name = (port_type (λ p. true) sender 1).1

Reach-buried_name : Reach buried_name
Reach-buried_name = stepped Reach-sender (types (λ p. true) 1)

buried_name-dead : name_is_dead buried_name 1 ≡ true
unfolding name_is_dead port_type install fill_slot alloc_slot_locked search_slot find_free take_slot
    new
buried_name-dead = refl

buried_name_small : buried_name.capacity < 2 ^ 31
unfolding port_type install fill_slot alloc_slot_locked search_slot find_free take_slot new
buried_name_small = omega arith

-- and the next right goes elsewhere
name_is_dead-stays_example :
    (name_is_dead (install true buried_name (some 8) send_right).after 1 ≡ true)
    × ((need : Rights) → lookup (install true buried_name (some 8) send_right).after 1 need ≡ none)
name_is_dead-stays_example =
    name_is_dead-stays 1 buried_name (install true buried_name (some 8) send_right).after
      Reach-buried_name buried_name-dead
      (stepped_on now (installs true (some 8) send_right buried_name_small) tt)

-- the holder of a send right drops the receive right too
abbrev send_and_receive : Rights
send_and_receive = record send_right { receive = true }

sender_inside : 1 < sender.capacity
unfolding install fill_slot alloc_slot_locked search_slot find_free take_slot new
sender_inside = omega arith

sender_port : (sender.table 1).port ≡ some 7
unfolding install fill_slot alloc_slot_locked search_slot find_free take_slot new
sender_port = refl

sender_overlap : is_empty (both (sender.table 1).rights send_and_receive) ≡ false
unfolding install fill_slot alloc_slot_locked search_slot find_free take_slot new
sender_overlap = refl

sender_lacks : has (sender.table 1).rights receiving ≡ false
unfolding install fill_slot alloc_slot_locked search_slot find_free take_slot new
sender_lacks = refl

drop_one_right-excess_example :
    (held (drop_one_right sender 1 send_and_receive).after 7 receiving ≡ held sender 7 receiving)
    × (given_back (drop_one_right sender 1 send_and_receive).calls 7 receiving ≡ 1)
drop_one_right-excess_example =
    drop_one_right-excess sender 1 7 send_and_receive receiving refl sender_inside sender_port
      sender_overlap refl sender_lacks
