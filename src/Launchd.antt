-- ===== src/Launchd.antt =====
-- internal/launchd/launchd.go: the plist of the LaunchAgent and the calls of launchctl.
pub mod Escaped
use lopen.Base.{
  ℕ, Option, none, some, List, [], ◌∷◌, ◌++◌, ◌==◌, if◌then◌else◌, Bytes, codes, bytes_eq,
}
use lopen.Fault.{Error, on_error, no_home, bootstrap_failed}
use lopen.Os.{Os, Log, mkdir_all, save_file, remove, exec, Did, run}
use lopen.Paths.{join, dir}

abbrev pub agent_label : Bytes
agent_label = codes "com.jaxonwang.lopend"

-- `none` is a home directory that is not known.
unfoldable pub plist_path : Option Bytes → Option Bytes
plist_path none = none
plist_path (some home) = some (
    join (join (join home (codes "Library")) (codes "LaunchAgents"))
      (agent_label ++ codes ".plist"))

unfoldable pub xml_esc : Bytes → Bytes
xml_esc [] = []
xml_esc (c ∷ s) =
    let rest = xml_esc s in
    if c == b'&'
    then codes "&amp;" ++ rest
    else if c == b'<'
    then codes "&lt;" ++ rest
    else if c == b'>'
    then codes "&gt;" ++ rest
    else c ∷ rest

unfoldable pub string_element : Bytes → Bytes
string_element s = codes "<string>" ++ (xml_esc s ++ codes "</string>\n")

unfoldable pub argument_lines : List Bytes → Bytes
argument_lines [] = []
argument_lines (a ∷ args) = codes "    " ++ (string_element a ++ argument_lines args)

unfoldable pub log_lines : Bytes → Bytes
log_lines log_path =
    if bytes_eq log_path []
    then []
    else codes "  <key>StandardOutPath</key>\n  "
      ++ (string_element log_path
          ++ (codes "  <key>StandardErrorPath</key>\n  " ++ string_element log_path))

abbrev pub plist_head : Bytes
plist_head =
    codes "<?xml version=\"1.0\" encoding=\"UTF-8\"?>\n"
    ++ (codes
          "<!DOCTYPE plist PUBLIC \"-//Apple//DTD PLIST 1.0//EN\" \"http://www.apple.com/DTDs/PropertyList-1.0.dtd\">\n"
        ++ codes "<plist version=\"1.0\">\n<dict>\n")

unfoldable pub plist : List Bytes → Bytes → Bytes
unfolding argument_lines log_lines string_element
plist args log_path =
    plist_head
    ++ (codes "  <key>Label</key>\n  "
        ++ (string_element agent_label
            ++ (codes "  <key>ProgramArguments</key>\n  <array>\n"
                ++ (argument_lines args
                    ++ (codes "  </array>\n"
                        ++ (codes "  <key>RunAtLoad</key>\n  <true/>\n"
                            ++ (codes "  <key>KeepAlive</key>\n  <true/>\n"
                                ++ (log_lines log_path ++ codes "</dict>\n</plist>\n"))))))))

unfoldable pub daemon_args : Bytes → Bytes → List Bytes
daemon_args bin config_path =
    bin ∷ (if bytes_eq config_path [] then [] else codes "-config" ∷ config_path ∷ [])

-- "gui/%d" of the user
module _ (os : Os) (gui : Bytes) where
  unfoldable pub boot_out : Log → Log
  boot_out log =
      (run os log
        (exec (codes "launchctl" ∷ codes "bootout" ∷ (gui ++ (codes "/" ++ agent_label)) ∷ []))).log

  -- bootstrap, or load on an older macOS
  unfoldable pub boot : Log → Bytes → Did
  boot log pl =
      let b = run os log (exec (codes "launchctl" ∷ codes "bootstrap" ∷ gui ∷ pl ∷ [])) in
      let l = run os b.log (exec (codes "launchctl" ∷ codes "load" ∷ codes "-w" ∷ pl ∷ [])) in
      on_error b.error
        (λ e. record {
          log = l.log;
          error = on_error l.error (λ _. some (bootstrap_failed e)) none;
        })
        (record { log = b.log; error = none })

  unfoldable pub install_at : Log → Bytes → Bytes → Bytes → Bytes → Did
  install_at log pl bin config_path log_path =
      let d = run os log (mkdir_all (dir pl)) in
      let w = run os d.log (save_file pl (plist (daemon_args bin config_path) log_path)) in
      on_error d.error (λ e. d) (on_error w.error (λ e. w) (boot (boot_out w.log) pl))

  unfoldable pub install : Option Bytes → Log → Bytes → Bytes → Bytes → Did
  install home log bin config_path log_path = elim (plist_path home) [
    | none ↦ record { log = log; error = some no_home }
    | some pl ↦ install_at log pl bin config_path log_path
  ]

  unfoldable pub uninstall : Option Bytes → Log → Did
  uninstall home log = elim (plist_path home) [
    | none ↦ record { log = log; error = some no_home }
    | some pl ↦
        let u = run os (boot_out log) (exec (codes "launchctl" ∷ codes "unload" ∷ pl ∷ [])) in
        run os u.log (remove pl)
  ]
