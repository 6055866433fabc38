-- ===== src/Logger.antt =====
-- internal/logger/logger.go: how a logger is made, and its methods, each of which is logrus's, a parameter.
use vector_sync.Base.{String, Bool, true, false, List, [], ◌∷◌, Option, none, some}
use vector_sync.Base.Exec.{Error}

-- The levels of logrus that the methods write at, and that of `Fatalf`.
pub data Level : Type 0 where
  debug_level info_level warn_level error_level fatal_level : Level

-- A line of the log: its text without what `%v` puts in, which is beside it.
pub record Line : Type 0 where
  pub level : Level
  pub text : String
  pub reason : Option Error

-- `logrus.TextFormatter`
pub record TextFormatter : Type 0 where
  pub full_timestamp : Bool
  pub force_colors : Bool
  pub disable_colors : Bool
  pub pad_level_text : Bool
  pub timestamp_format : String

pub data Output : Type 0 where
  file : String → Output
  stdout : Output

-- What `NewLogger` sets of the logger of logrus.
pub record Settings : Type 0 where
  pub level : Level
  pub formatter : TextFormatter
  pub outputs : List Output

-- What `MkdirAll` and `OpenFile` of the log file return, and a logger or the line of `Fatalf`.
pub data Made : Type 0 where
  logger : Settings → Made
  exits : Line → Made

abbrev pub fatal_line : String → Error → Line
fatal_line text e = record { level = fatal_level; text = text; reason = some e }

-- `NewLogger`
unfoldable pub new_logger : Option Error → Option Error → Made
new_logger (some e) opened = exits (fatal_line "Failed to create log directory" e)
new_logger none (some e) = exits (fatal_line "Failed to open log file" e)
new_logger none none = logger (record {
  level = debug_level;
  formatter = record {
    full_timestamp = true;
    force_colors = true;
    disable_colors = false;
    pad_level_text = true;
    timestamp_format = "2006-01-02 15:04:05";
  };
  outputs = file "logs/vector-sync.log" ∷ stdout ∷ [];
})

-- The methods of `*logrus.Logger`: by the level, of arguments, of those with a line end, and of a format.
pub record Logrus (L A : Type 0) : Type 0 where
  pub log : Level → List A → L → L
  pub logln : Level → List A → L → L
  pub logf : Level → String → List A → L → L

module _ {L A : Type 0} (logrus : Logrus L A) where
  -- `Info`, `Infoln`, `Infof`
  unfoldable pub info : List A → L → L
  info args = logrus.log info_level args

  unfoldable pub infoln : List A → L → L
  infoln args = logrus.logln info_level args

  unfoldable pub infof : String → List A → L → L
  infof format args = logrus.logf info_level format args

  -- `Error`, `Errorln`, `Errorf`
  unfoldable pub error : List A → L → L
  error args = logrus.log error_level args

  unfoldable pub errorln : List A → L → L
  errorln args = logrus.logln error_level args

  unfoldable pub errorf : String → List A → L → L
  errorf format args = logrus.logf error_level format args

  -- `Debug`, `Debugln`, `Debugf`
  unfoldable pub debug : List A → L → L
  debug args = logrus.log debug_level args

  unfoldable pub debugln : List A → L → L
  debugln args = logrus.logln debug_level args

  unfoldable pub debugf : String → List A → L → L
  debugf format args = logrus.logf debug_level format args

  -- `Warn`, `Warnln`, `Warnf`
  unfoldable pub warn : List A → L → L
  warn args = logrus.log warn_level args

  unfoldable pub warnln : List A → L → L
  warnln args = logrus.logln warn_level args

  unfoldable pub warnf : String → List A → L → L
  warnf format args = logrus.logf warn_level format args
