-- ===== src/Akill/Masks.antt =====
-- The masks that AKILL lets into the list.
use euskal_irc_services_bdd.Base.{
  ℕ, ◌≡◌, Bool, true, false, not, Option, none, some, List, [], ◌∷◌, ◌++◌, leb, if_cases, if_both,
  Bytes, length, strchr, strcmp_eq, All, arith,
}
use euskal_irc_services_bdd.Chars.{stricmp_eq}
use euskal_irc_services_bdd.Duration.{ℤ, pos, negsuc}
use euskal_irc_services_bdd.Akill.{
  Akill, Akills, Event, max_akills, new_akill, add_akill, del_akill,
}
use euskal_irc_services_bdd.Akill.Lists.{remove_first, del_akill_lem}
use euskal_irc_services_bdd.Akill.Command.{
  is_mask, put, put_parsed, put_checked, akill_add, removed, remove_parsed, akill_del, Reply,
}

-- `user@host` without a nick, and not the mask of everyone
abbrev pub HasMask : Akill → Type 0
HasMask a = is_mask a.mask ≡ true

All-append_one :
    (a : Akill) (l : List Akill) → All HasMask l → HasMask a → All HasMask (l ++ (a ∷ []))
All-append_one a [] h ha = (ha, tt)
All-append_one a (b ∷ l) h ha = (h.0, All-append_one a l h.1 ha)

All-remove_first :
    (mask : Bytes) (l : List Akill) → All HasMask l → All HasMask (remove_first mask l)
unfolding remove_first
All-remove_first mask [] h = tt
All-remove_first mask (a ∷ l) h =
    if_both (All HasMask) (strcmp_eq a.mask mask) _ _ h.1 (h.0, All-remove_first mask l h.1)

add_akill-HasMask :
    (now : ℕ) (mask reason who : Bytes) (expires : ℕ) (s : Akills)
    → is_mask mask ≡ true
    → All HasMask s.akills
    → All HasMask (add_akill now mask reason who expires s).0.akills
unfolding add_akill
add_akill-HasMask now mask reason who expires s ok h =
    if_both (λ (p : Akills × List Event). All HasMask p.0.akills) (leb max_akills (length s.akills))
      _ _ h (All-append_one (new_akill now mask reason who expires) s.akills h ok)

module _ (readonly : Bool) (autokill_expiry : ℤ) (nick : Bytes) where
  abbrev pub Good : Akills × List Reply → Type 0
  Good r = All HasMask r.0.akills

  put-Good :
      (now expires : ℕ) (mask reason : Bytes) (s : Akills)
      → All HasMask s.akills
      → Good (put readonly autokill_expiry nick now expires mask reason s)
  put-Good now expires mask reason s h =
      if_cases Good (strchr mask b'!') _ _ (λ a. h)
        (λ no_nick.
          if_cases Good (not (strchr mask b'@')) _ _ (λ b. h)
            (λ host.
              if_cases Good (stricmp_eq (b'*' ∷ b'@' ∷ b'*' ∷ []) mask) _ _ (λ c. h)
                (λ some_only. add_akill-HasMask now mask reason nick expires s (ground arith) h)))

  unfoldable pub GoodOption : Option (Akills × List Reply) → Type 0
  GoodOption none = Unit
  GoodOption (some r) = Good r

  put_parsed-Good :
      (now expires : ℕ) (mask reason : Option Bytes) (s : Akills)
      → All HasMask s.akills
      → Good (put_parsed readonly autokill_expiry nick now expires mask reason s)
  put_parsed-Good now expires none reason s h = h
  put_parsed-Good now expires (some mask) none s h = h
  put_parsed-Good now expires (some mask) (some reason) s h = put-Good now expires mask reason s h

  put_checked-Good :
      (now : ℕ) (expires : Option ℤ) (mask reason : Option Bytes) (s : Akills)
      → All HasMask s.akills
      → GoodOption (put_checked readonly autokill_expiry nick now expires mask reason s)
  unfolding put_checked GoodOption
  put_checked-Good now none mask reason s h = tt
  put_checked-Good now (some (negsuc n)) mask reason s h = h
  put_checked-Good now (some (pos n)) mask reason s h = put_parsed-Good now _ mask reason s h

  Good-some : (r : Akills × List Reply) → Good r → GoodOption (some r)
  unfolding GoodOption
  Good-some r h = h

  removed-Good :
      (mask : Bytes) (r : Akills × Bool)
      → All HasMask r.0.akills
      → Good (removed readonly autokill_expiry nick mask r)
  removed-Good mask (s, true) h = h
  removed-Good mask (s, false) h = h

  remove_parsed-Good :
      (mask : Option Bytes) (s : Akills)
      → All HasMask s.akills
      → Good (remove_parsed readonly autokill_expiry nick mask s)
  remove_parsed-Good none s h = h
  remove_parsed-Good (some mask) s h =
      removed-Good mask (del_akill mask s)
        (rw (del_akill_lem mask s) (All-remove_first mask s.akills h))

  -- AKILL ADD, where its time does not overflow an `int`, and AKILL DEL leave a list in which every mask
  -- has an `@`, has no `!`, and is not `*@*`, if all masks of the list before were such.
  pub do_akill-HasMask :
      (now : ℕ) (params : Option Bytes) (s : Akills)
      → All HasMask s.akills
      → GoodOption (akill_add readonly autokill_expiry nick now params s)
        × Good (akill_del readonly autokill_expiry nick params s)
  unfolding akill_add akill_del
  do_akill-HasMask now params s h = (
    if_both GoodOption (leb max_akills (length s.akills)) _ _ (Good-some _ h)
        (put_checked-Good now _ _ _ s h),
    remove_parsed-Good _ s h,
  )
