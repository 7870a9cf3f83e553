-- ===== src/Mount/Arrival.antt =====
-- typed-fuse/src/session.rs and typed-fuse/src/mount.rs: the options of a session, from the caller
-- to libfuse.
use typed_fuse.Base.{
  ◌≡◌, refl, ap, sym, ◌∙◌, Bool, true, false, ◌||◌, Option, none, some, List, [], ◌∷◌, ◌++◌, map,
  if◌then◌else◌, arith, All,
}
use typed_fuse.Base.Outcome.{ok, panic}
use typed_fuse.Base.Order.{Bytes}
use typed_fuse.Session.Dirents.{has_nul}
use typed_fuse.Mount.Config.{new_config, parse_option_words, default_permissions_word, fsname_key}
use typed_fuse.Mount.Options.{
  MountOption, fs_name, default_permissions, custom, render, rendered, join, with_options, any_nul,
  session_args, build_mount_options,
}
use typed_fuse.Mount.Reading.{
  IsOptionReader, word_of, applies, IsRaw, before, before-word, has_nul-append, Reads, Renders,
  render-Renders,
}
use typed_fuse.Mount.Forwarded.{IsForwarded, append_nil, parse-forwarded}

-- The words of the options that the platform has, in order.
abbrev pub words_of : Bool → List MountOption → List Bytes
words_of is_macos [] = []
words_of is_macos (option ∷ options) =
    let rest = words_of is_macos options in
    if applies is_macos option then word_of option ∷ rest else rest

-- The arguments carry these words: one argument after `-o` is read as them, and there is none where
-- there is no word.
abbrev pub Carries : (Bytes → List Bytes) → List Bytes → List Bytes → Type 0
Carries split [] args = args ≡ (b'f' ∷ b'u' ∷ b's' ∷ b'e' ∷ b'3' ∷ []) ∷ []
Carries split (word ∷ words) args =
    (arg : Bytes) × (args ≡ (b'f' ∷ b'u' ∷ b's' ∷ b'e' ∷ b'3' ∷ []) ∷ (b'-' ∷ b'o' ∷ []) ∷ arg ∷ [])
    × (split arg ≡ word ∷ words)

module _ (split : Bytes → List Bytes) (reader : IsOptionReader split) where
  -- Each text is read as its word.
  abbrev AllRead : List Bytes → List Bytes → Type 0
  AllRead [] [] = Unit
  AllRead [] (word ∷ words) = ⊥
  AllRead (text ∷ texts) [] = ⊥
  AllRead (text ∷ texts) (word ∷ words) = Reads split reader text word × AllRead texts words

  abbrev with_rendering : Option Bytes → List Bytes → List Bytes
  with_rendering none texts = texts
  with_rendering (some text) texts = text ∷ texts

  with_rendering-AllRead :
      (sent : Bool) (rendering : Option Bytes) (word : Bytes) (texts words : List Bytes)
      → Renders split reader sent rendering word
      → AllRead texts words
      → AllRead
          (with_rendering rendering texts)
          (if◌then◌else◌ {A = List Bytes} sent (word ∷ words) words)
  with_rendering-AllRead true none word texts words r h = absurd (ground (arith, r.1))
  with_rendering-AllRead true (some text) word texts words (t, is, reads) h =
      let same : text ≡ t = ground arith in (rw same reads, h)
  with_rendering-AllRead false none word texts words r h = h
  with_rendering-AllRead false (some text) word texts words r h = absurd (ground arith)

  rendered-with :
      (m : Bool) (option : MountOption) (options : List MountOption)
      → rendered m (option ∷ options) ≡ with_rendering (render m option) (rendered m options)
  unfolding rendered
  rendered-with m option options = ground arith

  rendered-AllRead :
      (m : Bool) (options : List MountOption)
      → All IsRaw options
      → AllRead (rendered m options) (words_of m options)
  rendered-AllRead m [] h = unfold rendered in tt
  rendered-AllRead m (option ∷ options) h = rw (rendered-with m option options) (
      with_rendering-AllRead (applies m option) (render m option) (word_of option)
        (rendered m options) (words_of m options) (render-Renders split reader m option h.0)
        (rendered-AllRead m options h.1))

  join-reads :
      (text word : Bytes) (texts words : List Bytes)
      → AllRead (text ∷ texts) (word ∷ words)
      → split (join (text ∷ texts)) ≡ word ∷ words
  join-reads text word [] [] h =
      ap split (sym (append_nil text))
      ∙ h.0.reads []
      ∙ ap (before word) reader.stop
      ∙ before-word word []
  join-reads text word [] (w ∷ words) h = absurd h.1
  join-reads text word (t ∷ texts) [] h = absurd h.1
  join-reads text word (t ∷ texts) (w ∷ words) h =
      h.0.reads (b',' ∷ join (t ∷ texts))
      ∙ ap (before word) (reader.comma (join (t ∷ texts)))
      ∙ before-word word (split (join (t ∷ texts)))
      ∙ ap (λ ws. word ∷ ws) (join-reads t w texts words h.1)

  has_nul-join :
      (texts words : List Bytes) → AllRead texts words → has_nul (join texts) ≡ any_nul words
  has_nul-join [] [] h = refl
  has_nul-join [] (w ∷ words) h = absurd h
  has_nul-join (t ∷ texts) [] h = absurd h
  has_nul-join (t ∷ []) (w ∷ []) h = ground (arith, h.0.same_nul)
  has_nul-join (t ∷ []) (w ∷ w' ∷ words) h = absurd h.1
  has_nul-join (t ∷ t' ∷ texts) (w ∷ words) h =
      has_nul-append t (b',' ∷ join (t' ∷ texts))
      ∙ ap (λ b. has_nul t || b) (has_nul-join (t' ∷ texts) words h.1)
      ∙ ap (λ b. b || any_nul words) h.0.same_nul

  -- What the arguments hold is decided by the texts.
  carried :
      (texts words : List Bytes)
      → AllRead texts words
      → let args = (b'f' ∷ b'u' ∷ b's' ∷ b'e' ∷ b'3' ∷ []) ∷ with_options texts in
        (any_nul args ≡ any_nul words) × Carries split words args
  carried [] [] h = (refl, refl)
  carried [] (w ∷ words) h = absurd h
  carried (t ∷ texts) [] h = absurd h
  carried (t ∷ texts) (w ∷ words) h = (
    ground (arith, has_nul-join (t ∷ texts) (w ∷ words) h),
    (join (t ∷ texts), refl, join-reads t w texts words h),
  )

  -- The options of a session reach libfuse: if no word of an option that the platform has holds a
  -- NUL, the session is made with arguments of which the one after `-o` is read by libfuse as those
  -- words in order, commas and backslashes of names included, and with none where no option
  -- applies; a NUL panics. The raw options hold no comma or backslash. How libfuse reads its list
  -- is a hypothesis.
  pub session_args-IsRead :
      (is_macos : Bool) (options : List MountOption)
      → All IsRaw options
      → let words = words_of is_macos options in
        (any_nul words ≡ true → session_args is_macos options ≡ panic)
        × (any_nul words ≡ false
            → (args : List Bytes) × (session_args is_macos options ≡ ok args)
              × Carries split words args)
  unfolding session_args
  session_args-IsRead m options raw =
      let (nul, carries) =
        carried (rendered m options) (words_of m options) (rendered-AllRead m options raw) in
      (
        λ h. rw (nul ∙ h) refl,
        λ h. (
          (b'f' ∷ b'u' ∷ b's' ∷ b'e' ∷ b'3' ∷ []) ∷ with_options (rendered m options),
          rw (nul ∙ h) refl,
          carries,
        ),
      )

  custom-IsRaw : (words : List Bytes) → All IsForwarded words → All IsRaw (map custom words)
  custom-IsRaw [] h = tt
  custom-IsRaw (word ∷ words) h = (h.0.plain, custom-IsRaw words h.1)

  words_of-custom : (m : Bool) (words : List Bytes) → words_of m (map custom words) ≡ words
  words_of-custom m [] = refl
  words_of-custom m (word ∷ words) = ap (λ ws. word ∷ ws) (words_of-custom m words)

  -- The words of a command line that are not recognized reach libfuse: parsed into a new
  -- configuration and built into the options of a session, they are read by libfuse in their order,
  -- after the name of the source and `default_permissions`. They hold no comma, backslash or NUL,
  -- and the name no NUL. How libfuse reads its list is a hypothesis.
  forwarded_words-IsRead :
      (is_macos : Bool) (name : Bytes) (words : List Bytes)
      → All IsForwarded words
      → any_nul (name ∷ words) ≡ false
      → (arg : Bytes) × (session_args is_macos
            (build_mount_options (parse_option_words words (new_config name)))
          ≡ ok ((b'f' ∷ b'u' ∷ b's' ∷ b'e' ∷ b'3' ∷ []) ∷ (b'-' ∷ b'o' ∷ []) ∷ arg ∷ []))
        × (split arg ≡ (fsname_key ++ name) ∷ default_permissions_word ∷ words)
  unfolding build_mount_options
  forwarded_words-IsRead m name words h no_nul =
      let options = fs_name name ∷ default_permissions ∷ map custom words in
      let built : build_mount_options (parse_option_words words (new_config name)) ≡ options =
        ap build_mount_options (parse-forwarded words (new_config name) h) in
      let sent = (fsname_key ++ name) ∷ default_permissions_word ∷ words in
      let are : words_of m options ≡ sent =
        ap (λ ws. (fsname_key ++ name) ∷ default_permissions_word ∷ ws) (words_of-custom m words) in
      let (args, made, carries) =
        (session_args-IsRead m options (tt, (tt, custom-IsRaw words h))).1
          (ap any_nul are ∙ ground (arith, no_nul)) in
      let (arg, is, reads) = carries in
      (arg, ap (session_args m) built ∙ made ∙ ap ok is, reads ∙ are)
