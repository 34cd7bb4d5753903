-- ===== src/Pulld/Meets.antt =====
-- The pid file that the watchdog (injectService/pulld/src/main.cpp) tries, and the one that the
-- service it starts (injectService/pull/src/main.cpp) locks.
use pull_stream.Base.{
  take_all, ℕ, zero, suc, ◌+◌, ◌-◌, ◌≤◌, ◌<◌, pos, ◌≡◌, refl, ap, ◌∙◌, sym, some, [], ◌∷◌, ◌++◌,
  Text, bytes, c_str, length, take, drop, null, text_eq, true, arith, append_assoc, length-append,
  false, ltb,
}
use pull_stream.Common.{AppData}
use pull_stream.External.{External}
use pull_stream.Ini.{MainKeyMap, get_str, load}
use pull_stream.Main
use pull_stream.Main.{settings, beside, zeros, main_with}
use pull_stream.Paths.{get_cur_path}
use pull_stream.Paths.Folder.{get_cur_path_lem}
use pull_stream.PString.{padded}
use pull_stream.Pulld.{Settings, read_settings}
use pull_stream.World.{World, Action, ret, gets, ◌>>=◌}

drop-padded : (k n : ℕ) → k ≤ n → drop k (padded n []) ≡ padded (n - k) []
unfolding padded
drop-padded zero n h = ap (λ (k : ℕ). padded k []) (omega arith)
drop-padded (suc k) zero h = absurd (omega arith)
drop-padded (suc k) (suc n) h =
    drop-padded k n (omega arith) ∙ ap (λ (j : ℕ). padded j []) (omega arith)

c_str-append : (t rest : Text) → c_str t ≡ t → c_str (t ++ (0 ∷ rest)) ≡ t
unfolding c_str
c_str-append [] rest h = refl
c_str-append (zero ∷ t) rest h = cc
c_str-append (suc c ∷ t) rest h = ap (λ (l : Text). suc c ∷ l) (c_str-append t rest (cc h))

c_str-zeros : (t : Text) (n : ℕ) → c_str t ≡ t → 0 < n → c_str (t ++ padded n []) ≡ t
unfolding padded
c_str-zeros t zero h room = absurd (omega arith)
c_str-zeros t (suc n) h room = c_str-append t (padded n []) h

-- A text without null bytes, with an ASCII literal behind it.
plain-append : (d t : Text) → c_str d ≡ d → c_str t ≡ t → c_str (d ++ t) ≡ d ++ t
unfolding c_str
plain-append [] t h k = k
plain-append (zero ∷ d) t h k = cc
plain-append (suc c ∷ d) t h k = ap (λ (l : Text). suc c ∷ l) (plain-append d t (cc h) k)

-- The service in the folder `sbin` of `d`.
abbrev folder : Text → Text
folder d = d ++ bytes "sbin"

length-folder : (d : Text) → length (folder d) ≡ length d + 4
unfolding bytes
length-folder d = length-append d (bytes "sbin")

c_str-folder : (d : Text) → c_str d ≡ d → c_str (folder d) ≡ folder d
unfolding bytes c_str
c_str-folder d plain = plain-append d (bytes "sbin") plain refl

-- The folder, in a buffer of zeros.
folder_lem :
    (d : Text)
    → c_str d ≡ d
    → length d ≤ 200
    → get_cur_path (d ++ bytes "sbin/pull") (zeros 256) 256
      ≡ some (pos 0, folder d ++ padded (256 - length (folder d)) [])
unfolding bytes zeros padded
folder_lem d plain short =
    let fits : ltb (length (folder d)) 256 ≡ true = ground (arith, length-folder d) in
    let behind = drop-padded (length (folder d)) 256 (omega (arith, length-folder d)) in
    let r =
      get_cur_path_lem (folder d) (bytes "pull") (zeros 256) 256
        ((λ e. omega arith), ((λ e. omega arith), ((λ e. omega arith), ((λ e. omega arith), tt))))
        (c_str-folder d plain) refl in
    ap (λ (t : Text). get_cur_path t (zeros 256) 256)
      (sym (append_assoc d (bytes "sbin") (bytes "/pull")))
    ∙ r
    ∙ rw (fits, behind) refl

beside-folder :
    (d name : Text)
    → c_str d ≡ d
    → length d ≤ 200
    → length name ≤ 50
    → beside (folder d ++ padded (256 - length (folder d)) []) name
      ≡ d ++ (bytes "sbin" ++ (bytes "/" ++ name))
unfolding bytes
beside-folder d name plain short short_name =
    let stop =
      c_str-zeros (folder d) (256 - length (folder d)) (c_str-folder d plain)
        (omega (arith, length-folder d)) in
    ap (λ (t : Text). take 255 (t ++ (bytes "/" ++ name))) stop
    ∙ take_all 255 (folder d ++ (bytes "/" ++ name))
        (omega (arith, length-append (folder d) (bytes "/" ++ name), length-folder d))
    ∙ append_assoc d (bytes "sbin") (bytes "/" ++ name)

module _ ⦃x : External⦄ where
  open x use {fopen}

  -- What the service does behind the look for its folder, which is `sbin` in `d`.
  abbrev pub main_in : Text → Action AppData
  main_in d = do
    conf ← gets (λ w. fopen w.os (d ++ bytes "sbin/../conf/1.conf"))
    ini_reader ← settings (load conf)
    main_with ini_reader (d ++ bytes "sbin/../log/pid")

  main-main_in :
      (d : Text) (w : World)
      → c_str d ≡ d
      → length d ≤ 200
      → Main.main (d ++ bytes "sbin/pull") w ≡ main_in d w
  unfolding Main.main bytes
  main-main_in d w plain short =
      let conf = beside-folder d (bytes "../conf/1.conf") plain short (omega arith) in
      let pid = beside-folder d (bytes "../log/pid") plain short (omega arith) in
      rw (folder_lem d plain short) (rw (conf, pid) refl)

  -- Settings with a folder, a network interface and the address of a database, as the watchdog reads
  -- them one after another.
  pub record HasSettings (d : Text) (m : MainKeyMap) : Type 0 where
    pub dae : Text
    pub net_type : Text
    pub mongo_addr : Text
    pub m_1 : MainKeyMap
    pub m_2 : MainKeyMap
    pub m_3 : MainKeyMap
    pub m_4 : MainKeyMap
    pub read_daemon : get_str m (bytes "system") (bytes "daemon") ≡ some (dae, m_1)
    pub read_folder : get_str m_1 (bytes "child") (bytes "bin_dir") ≡ some (d, m_2)
    pub read_net : get_str m_2 (bytes "system") (bytes "net_type") ≡ some (net_type, m_3)
    pub read_mongo : get_str m_3 (bytes "mongodb") (bytes "address") ≡ some (mongo_addr, m_4)
    pub net : null net_type ≡ false
    pub mongo : null mongo_addr ≡ false

  -- What the watchdog reads.
  abbrev pub settings_of : (d : Text) (m : MainKeyMap) → HasSettings d m → Settings
  settings_of d m h = record {
    is_daemon = text_eq h.dae (bytes "on");
    rec_bin_dir = d ++ bytes "sbin/pull";
    rec_pid_dir = d ++ bytes "log/pid";
    net_type = h.net_type;
    mongo_addr = h.mongo_addr;
  }

  names_fit :
      (d : Text)
      → length d ≤ 200
      → (take 1023 (d ++ bytes "sbin/pull") ≡ d ++ bytes "sbin/pull")
        × (take 1023 (d ++ bytes "log/pid") ≡ d ++ bytes "log/pid")
  unfolding bytes
  names_fit d short = (
    take_all 1023 _ (omega (arith, length-append d (bytes "sbin/pull"))),
    take_all 1023 _ (omega (arith, length-append d (bytes "log/pid"))),
  )

  read_settings_lem :
      (d : Text) (m : MainKeyMap) (h : HasSettings d m) (w : World)
      → length d ≤ 200
      → read_settings m w ≡ (ret (settings_of d m h), w)
  unfolding read_settings
  read_settings_lem d m h w short =
      let (bin, pid) = names_fit d short in
      ground
        (arith, h.read_daemon, h.read_folder, h.read_net, h.read_mongo, h.net, h.mongo, bin, pid)

  -- With a folder `d` in its settings, of 200 bytes at most and without null bytes, the watchdog
  -- tries the lock of `d` followed by `log/pid`, and runs a command under whose name the service
  -- finds its folder to be `d` followed by `sbin`: it reads its settings and locks its pid file at
  -- `d` followed by `sbin/../conf/1.conf` and `sbin/../log/pid`.
  pub main-read_settings :
      (d : Text) (m : MainKeyMap) (h : HasSettings d m) (w v : World)
      → c_str d ≡ d
      → length d ≤ 200
      → (s : Settings) × (read_settings m w ≡ (ret s, w))
        × (s.rec_pid_dir ≡ d ++ bytes "log/pid")
        × (Main.main s.rec_bin_dir v ≡ main_in d v)
  main-read_settings d m h w v plain short =
      (settings_of d m h, read_settings_lem d m h w short, refl, main-main_in d v plain short)
