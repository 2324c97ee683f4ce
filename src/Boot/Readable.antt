-- ===== src/Boot/Readable.antt =====
-- The texts of fleet.yaml and of the options that the script of internal/boot/dispatch.go prints,
-- where iPXE reads them as words.
use pxe_beacon.Base.{
  ◌≡◌, refl, inl, inr, arith, Bool, true, false, List, [], ◌∷◌, ◌++◌, Bool-cases, Text, is_empty,
  Map, insert_by, sort_by,
}
use pxe_beacon.Fleet.{Profile, Machine, valid_boot_target, is_text}
use pxe_beacon.Fleet.Saving.{as_machine}
use pxe_beacon.Boot.Script.{Line, say, print, label, jump, on_match, item, is_plain, is_readable}
use pxe_beacon.Boot.Labels.{label_of}
use pxe_beacon.Boot.Arms.{
  DispatchContext, error_blocks, rescue_arm, debian_12_arm, debian_13_arm, kickstart_arm,
  redhat_arm, ubuntu_arm, custom_arm, menu_arm, target_arm,
}
use pxe_beacon.Boot.Block.{
  menu_lines, boot_lines, booted_arm, block_body, machine_block, shown_name,
}
use pxe_beacon.Boot.Dispatch.{
  arch_lines, welcome_lines, head_lines, netmask_lines, addr, table_head, match_lines, match_table,
  table_end, is_armed, machine_blocks, tail_lines, dispatch_of,
}

-- The address that the server is advertised at and the netmask for the clients are plain.
pub record IsPlainContext (ctx : DispatchContext) : Type 0 where
  pub address : is_plain (addr ctx) ≡ true
  pub netmask : is_plain ctx.client_netmask ≡ true

-- Each address and each name is plain, and each boot target is one that the server knows.
abbrev pub IsPlainFleet : Map Profile → Type 0
IsPlainFleet [] = Unit {0}
IsPlainFleet ((mac, p) ∷ ms) =
    (is_plain mac ≡ true)
    × (is_plain p.name ≡ true)
    × (valid_boot_target p.boot ≡ true)
    × IsPlainFleet ms

module _ (less : Text × Profile → Text × Profile → Bool) where
  insert_by-IsPlainFleet :
      (mac : Text) (p : Profile) (ms : Map Profile)
      → IsPlainFleet ((mac, p) ∷ ms)
      → IsPlainFleet (insert_by less (mac, p) ms)
  unfolding insert_by
  insert_by-IsPlainFleet mac p [] h = h
  insert_by-IsPlainFleet mac p ((mac', q) ∷ ms) (a, b, c, (a', b', c', rest)) =
      elim (Bool-cases (less (mac', q) (mac, p))) [
        | inl e ↦ rw e (a', b', c', insert_by-IsPlainFleet mac p ms (a, b, c, rest))
        | inr e ↦ rw e (a, b, c, (a', b', c', rest))
      ]

  pub sort_by-IsPlainFleet : (ms : Map Profile) → IsPlainFleet ms → IsPlainFleet (sort_by less ms)
  unfolding sort_by
  sort_by-IsPlainFleet [] h = tt
  sort_by-IsPlainFleet ((mac, p) ∷ ms) (a, b, c, rest) =
      insert_by-IsPlainFleet mac p (sort_by less ms) (a, b, c, sort_by-IsPlainFleet ms rest)

is_readable-append :
    (xs ys : List Line)
    → is_readable xs ≡ true
    → is_readable ys ≡ true
    → is_readable (xs ++ ys) ≡ true
unfolding is_readable
is_readable-append [] ys hx hy = hy
is_readable-append (say t ∷ xs) ys hx hy = is_readable-append xs ys hx hy
is_readable-append (label l ∷ xs) ys hx hy = is_readable-append xs ys hx hy
is_readable-append (jump b l ∷ xs) ys hx hy = is_readable-append xs ys hx hy
is_readable-append (on_match k v l ∷ xs) ys hx hy = is_readable-append xs ys hx hy
is_readable-append (item b l a ∷ xs) ys hx hy = is_readable-append xs ys hx hy
is_readable-append (print b t a ∷ xs) ys hx hy = ground (arith, is_readable-append xs ys)

-- The part of a readable script before some line.
pub is_readable-before : (xs ys : List Line) → is_readable (xs ++ ys) ≡ true → is_readable xs ≡ true
unfolding is_readable
is_readable-before [] ys h = refl
is_readable-before (say t ∷ xs) ys h = is_readable-before xs ys h
is_readable-before (label l ∷ xs) ys h = is_readable-before xs ys h
is_readable-before (jump b l ∷ xs) ys h = is_readable-before xs ys h
is_readable-before (on_match k v l ∷ xs) ys h = is_readable-before xs ys h
is_readable-before (item b l a ∷ xs) ys h = is_readable-before xs ys h
is_readable-before (print b t a ∷ xs) ys h = ground (arith, is_readable-before xs ys)

module _ (ctx : DispatchContext) (m : Machine) (own : Text) where
  rescue_arm-IsReadable : is_readable (rescue_arm ctx m own) ≡ true
  unfolding rescue_arm error_blocks is_readable
  rescue_arm-IsReadable = refl

  debian_12_arm-IsReadable : is_readable (debian_12_arm ctx m own) ≡ true
  unfolding debian_12_arm error_blocks is_readable
  debian_12_arm-IsReadable = refl

  debian_13_arm-IsReadable : is_readable (debian_13_arm ctx m own) ≡ true
  unfolding debian_13_arm error_blocks is_readable
  debian_13_arm-IsReadable = refl

  redhat_arm-IsReadable : is_readable (redhat_arm ctx m own) ≡ true
  unfolding redhat_arm kickstart_arm error_blocks is_readable
  redhat_arm-IsReadable = elim (Bool-cases (is_text m.profile.boot "rocky-9")) [
    | inl e ↦ rw e refl
    | inr e ↦ rw e refl
  ]

  ubuntu_arm-IsReadable : is_readable (ubuntu_arm ctx m own) ≡ true
  unfolding ubuntu_arm error_blocks is_readable
  ubuntu_arm-IsReadable = refl

  custom_arm-IsReadable : is_readable (custom_arm ctx m own) ≡ true
  unfolding custom_arm is_readable
  custom_arm-IsReadable = refl

  menu_arm-IsReadable : is_readable (menu_arm ctx m own) ≡ true
  unfolding menu_arm is_readable
  menu_arm-IsReadable = refl

  -- A known target does not reach the arm of the unknown ones.
  target_arm-IsReadable :
      (quote : Text → Text) (name : Text)
      → valid_boot_target m.profile.boot ≡ true
      → is_readable (target_arm ctx m quote own name) ≡ true
  unfolding target_arm valid_boot_target
  target_arm-IsReadable quote name h = ground (
    arith, debian_12_arm-IsReadable, debian_13_arm-IsReadable, redhat_arm-IsReadable,
    ubuntu_arm-IsReadable, custom_arm-IsReadable, menu_arm-IsReadable,
  )

module _ (ctx : DispatchContext) (quote : Text → Text) where
  shown_name-IsPlain :
      (m : Machine) (rescue : Bool)
      → is_plain m.mac ≡ true
      → is_plain m.profile.name ≡ true
      → is_plain (shown_name ctx m rescue) ≡ true
  shown_name-IsPlain m rescue a b = elim (Bool-cases (is_empty m.profile.name)) [
    | inl e ↦ rw e a
    | inr e ↦ rw e b
  ]

  menu_lines-IsReadable :
      (m : Machine) (rescue : Bool) (own : Text)
      → is_plain (shown_name ctx m rescue) ≡ true
      → is_readable (menu_lines ctx m rescue own) ≡ true
  unfolding menu_lines is_readable
  menu_lines-IsReadable m rescue own h = rw h refl

  boot_lines-IsReadable :
      (m : Machine) (rescue : Bool) (own : Text) → is_readable (boot_lines ctx m rescue own) ≡ true
  unfolding boot_lines is_readable
  boot_lines-IsReadable m rescue own = refl

  booted_arm-IsReadable :
      (m : Machine) (rescue : Bool) (own : Text)
      → valid_boot_target m.profile.boot ≡ true
      → is_readable (booted_arm ctx m rescue quote own) ≡ true
  unfolding booted_arm
  booted_arm-IsReadable m true own h = rescue_arm-IsReadable ctx m own
  booted_arm-IsReadable m false own h =
      target_arm-IsReadable ctx m own quote (shown_name ctx m false) h

  block_body-IsReadable :
      (m : Machine) (rescue : Bool) (own : Text)
      → is_plain (shown_name ctx m rescue) ≡ true
      → valid_boot_target m.profile.boot ≡ true
      → is_readable (block_body ctx m rescue quote own) ≡ true
  unfolding block_body
  block_body-IsReadable m rescue own name target =
      is_readable-append (menu_lines ctx m rescue own) _ (menu_lines-IsReadable m rescue own name) (
        is_readable-append (boot_lines ctx m rescue own) _ (boot_lines-IsReadable m rescue own)
          (booted_arm-IsReadable m rescue own target))

  machine_block-IsReadable :
      (m : Machine) (rescue : Bool)
      → is_plain m.mac ≡ true
      → is_plain m.profile.name ≡ true
      → valid_boot_target m.profile.boot ≡ true
      → is_readable (machine_block ctx m rescue quote) ≡ true
  unfolding machine_block is_readable
  machine_block-IsReadable m rescue a b c =
      block_body-IsReadable m rescue (label_of m.mac m.profile.name)
        (shown_name-IsPlain m rescue a b) c

  machine_blocks-IsReadable :
      (ms : Map Profile) → IsPlainFleet ms → is_readable (machine_blocks ctx quote ms) ≡ true
  unfolding machine_blocks
  machine_blocks-IsReadable [] h = unfold is_readable in refl
  machine_blocks-IsReadable ((mac, p) ∷ ms) (a, b, c, rest) =
      is_readable-append (machine_block ctx (as_machine (mac, p)) (is_armed ctx mac) quote) _
        (machine_block-IsReadable (as_machine (mac, p)) (is_armed ctx mac) a b c)
        (machine_blocks-IsReadable ms rest)

match_table-IsReadable : (ms : Map Profile) → IsPlainFleet ms → is_readable (match_table ms) ≡ true
unfolding match_table match_lines is_readable
match_table-IsReadable [] h = refl
match_table-IsReadable ((mac, p) ∷ ms) (a, b, c, rest) = rw b (match_table-IsReadable ms rest)

module _ (ctx : DispatchContext) (plain : IsPlainContext ctx) where
  netmask_lines-IsReadable : is_readable (netmask_lines ctx) ≡ true
  unfolding netmask_lines is_readable
  netmask_lines-IsReadable = elim (Bool-cases (is_empty ctx.client_netmask)) [
    | inl e ↦ rw e refl
    | inr e ↦ rw (e, plain.netmask) refl
  ]

  table_head-IsReadable : is_readable (table_head ctx) ≡ true
  unfolding table_head is_readable
  table_head-IsReadable = rw plain.address refl

  pub dispatch_of-IsReadable :
      (quote : Text → Text) (ms : Map Profile)
      → IsPlainFleet ms
      → is_readable (dispatch_of ctx quote ms) ≡ true
  unfolding dispatch_of
  dispatch_of-IsReadable quote ms h =
      is_readable-append head_lines _
        (unfold is_readable head_lines arch_lines welcome_lines in refl)
        (is_readable-append (netmask_lines ctx) _ netmask_lines-IsReadable (
          is_readable-append (table_head ctx) _ table_head-IsReadable (
            is_readable-append (match_table ms) _ (match_table-IsReadable ms h) (
              is_readable-append table_end _ (unfold is_readable table_end in refl) (
                is_readable-append (machine_blocks ctx quote ms) (tail_lines ctx)
                  (machine_blocks-IsReadable ctx quote ms h)
                  (unfold is_readable tail_lines in refl))))))
