-- ===== src/Config.antt =====
-- src/common/config.cc: the configuration, read from an XML file. The XML library is not part of the
-- repository: a document and its elements are parameters.
use tiny_rpc.Base.{
  ℕ, ◌≡◌, refl, List, Bool, Option, none, some, Outcome, ok, err, null_pointer, ◌>>=◌, Ends,
  goes_on, exits, ◌>>>◌, codes, atoi,
}

pub record Xml : Type 1 where
  pub Element : Type 0
  -- The document, `none` where `LoadFile` returns false.
  pub load_file : List ℕ → Option Element
  -- `FirstChildElement(name)` and `GetText()`, `none` for a null result.
  pub first_child_element : Element → List ℕ → Option Element
  pub get_text : Element → Option (List ℕ)

-- An `int` is its sign, whether it is negative, and its magnitude.
pub record LogConfig : Type 0 where
  pub m_log_level : List ℕ
  pub m_file_path : List ℕ
  pub m_file_name : List ℕ
  pub m_file_max_size : Bool × ℕ
  pub m_log_sync_inteval : Bool × ℕ
  pub m_ip : List ℕ
  pub m_port : Bool × ℕ

module _ (xml : Xml) where
  open xml use {Element, load_file, first_child_element, get_text}

  unfoldable pub found_node : Option Element → Ends Element
  found_node none = exits 1
  found_node (some node) = goes_on node

  unfoldable pub get_son_node : Element → List ℕ → Ends Element
  unfolding found_node
  get_son_node father name = found_node (first_child_element father name)

  -- A null text cannot become a string or a number.
  unfoldable pub text_of : Option (List ℕ) → Outcome (List ℕ)
  text_of none = err null_pointer
  text_of (some text) = ok text

  unfoldable pub read_config :
      Element → Element → Element → Element → Element → Element → Element → Outcome LogConfig
  unfolding text_of
  read_config log_level file_path file_name file_max_size sync_interval ip port = do
    m_log_level ← text_of (get_text log_level)
    m_file_path ← text_of (get_text file_path)
    m_file_name ← text_of (get_text file_name)
    max_size ← text_of (get_text file_max_size)
    interval ← text_of (get_text sync_interval)
    m_ip ← text_of (get_text ip)
    port_text ← text_of (get_text port)
    ok (record {
      m_log_level = m_log_level;
      m_file_path = m_file_path;
      m_file_name = m_file_name;
      m_file_max_size = atoi max_size;
      m_log_sync_inteval = atoi interval;
      m_ip = m_ip;
      m_port = atoi port_text;
    })

  unfoldable pub new_config : List ℕ → Ends (Outcome LogConfig)
  unfolding get_son_node read_config
  new_config xml_file = found_node (load_file xml_file) >>> λ document.
      get_son_node document (codes "root") >>> λ root. get_son_node root (codes "log") >>> λ log.
      get_son_node log (codes "log_level") >>> λ log_level.
      get_son_node log (codes "log_file_path") >>> λ file_path.
      get_son_node log (codes "log_file_name") >>> λ file_name.
      get_son_node log (codes "log_file_max_size") >>> λ file_max_size.
      get_son_node log (codes "log_file_sync_interval") >>> λ sync_interval.
      get_son_node root (codes "server") >>> λ server. get_son_node server (codes "ip") >>> λ ip.
      get_son_node server (codes "port") >>> λ port.
      goes_on (read_config log_level file_path file_name file_max_size sync_interval ip port)

  -- `g_log_config` after `SET_GLOBAL_CONFIG`: the first configuration stays.
  unfoldable pub set_global_config : Option LogConfig → List ℕ → Ends (Outcome LogConfig)
  unfolding new_config
  set_global_config (some g_log_config) xml_file = goes_on (ok g_log_config)
  set_global_config none xml_file = new_config xml_file

  -- The only status with which the construction ends the process is 1.
  abbrev ExitsWith {ℓ} : {A : Type ℓ} → Ends A → Type 0
  ExitsWith (goes_on a) = Unit {0}
  ExitsWith (exits status) = status ≡ 1

  found_node-ExitsWith :
      {B : Type 0} (o : Option Element) (f : Element → Ends B)
      → ((e : Element) → ExitsWith (f e))
      → ExitsWith (found_node o >>> f)
  unfolding found_node
  found_node-ExitsWith none f h = refl
  found_node-ExitsWith (some e) f h = h e

  -- Whatever the file holds, the construction ends the process with status 1 or makes an attempt to
  -- read the texts.
  new_config-ExitsWith : (xml_file : List ℕ) → ExitsWith (new_config xml_file)
  unfolding new_config get_son_node
  new_config-ExitsWith xml_file = found_node-ExitsWith (load_file xml_file) _ (λ document.
      found_node-ExitsWith (first_child_element document (codes "root")) _ (λ root.
        found_node-ExitsWith (first_child_element root (codes "log")) _ (λ log.
          found_node-ExitsWith (first_child_element log (codes "log_level")) _ (λ log_level.
            found_node-ExitsWith (first_child_element log (codes "log_file_path")) _ (λ file_path.
              found_node-ExitsWith (first_child_element log (codes "log_file_name")) _ (λ file_name.
                found_node-ExitsWith (first_child_element log (codes "log_file_max_size")) _
                  (λ max_size.
                    found_node-ExitsWith (first_child_element log (codes "log_file_sync_interval"))
                      _
                      (λ interval.
                        found_node-ExitsWith (first_child_element root (codes "server")) _
                          (λ server.
                            found_node-ExitsWith (first_child_element server (codes "ip")) _ (λ ip.
                              found_node-ExitsWith (first_child_element server (codes "port")) _
                                (λ port. tt)))))))))))
