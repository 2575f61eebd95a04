-- ===== src/Config/Connections.antt =====
-- The connections that the configuration describes: to MySQL (src/infrastructure/database/ormconfig.ts)
-- and to Redis (src/infrastructure/queue/queue.module.ts, src/features/wallet/wallet.module.ts).
use lior_paris_wallet.Prelude.{
  String, ◌≡◌, ◌≢◌, ◌⊎◌, refl, inl, inr, Bool, true, none, some, str_eq, eq_iff, Option-cases,
  Bool-cases, arith,
}
use lior_paris_wallet.Result.{Result, ok, err, error}
use lior_paris_wallet.Config.{
  ConfigService, JsNumber, or_default, missing, required, get_required_string, get_number,
}

-- `TypeOrmModuleOptions`, as far as they are set.
pub record TypeOrmModuleOptions : Type 0 where
  pub type : String
  pub host : String
  pub port : JsNumber
  pub username : String
  pub password : String
  pub database : String
  pub synchronize : Bool
  pub migrations_run : Bool
  pub auto_load_entities : Bool

-- `{ host, port }` of a connection to Redis.
pub record RedisConnection : Type 0 where
  pub host : String
  pub port : JsNumber

abbrev pub and_then : {A B : Type 0} → Result A → (A → Result B) → Result B
and_then (ok a) f = f a
and_then (err x) f = err x

module _ (other : String → JsNumber) (config : ConfigService) where
  abbrev connection_options : (username database : String) → TypeOrmModuleOptions
  connection_options username database = record {
    type = "mysql";
    host = or_default (config "MYSQL_HOST") "localhost";
    port = get_number other config "MYSQL_PORT" 3306;
    username = username;
    password = or_default (config "MYSQL_PASS") "";
    database = database;
    synchronize = true;
    migrations_run = true;
    auto_load_entities = true;
  }

  unfoldable pub create_connection_options : Result TypeOrmModuleOptions
  create_connection_options = and_then (get_required_string config "MYSQL_USER") λ username.
      and_then (get_required_string config "MYSQL_DB")
        λ database. ok (connection_options username database)

  unfoldable pub redis_connection : Result RedisConnection
  redis_connection =
      and_then (get_required_string config "REDIS_HOST")
        λ host. ok (record { host = host; port = get_number other config "REDIS_PORT" 6379 })

  -- A variable that the program can do without.
  abbrev pub IsMissing : String → Type 0
  IsMissing key = (config key ≡ none) ⊎ (config key ≡ some "")

  -- `getRequiredString` throws if the variable is missing, and answers its value otherwise.
  abbrev pub RequiredOutcome : String → Result String → Type 0
  RequiredOutcome key r =
      (IsMissing key × (r ≡ err (error (missing key))))
      ⊎ ((value : String) × (config key ≡ some value) × (value ≢ "") × (r ≡ ok value))

  required_outcome : (key : String) → RequiredOutcome key (get_required_string config key)
  unfolding get_required_string required
  required_outcome key = elim (Option-cases (config key)) [
    | inl unset ↦ inl (inl unset, rw unset refl)
    | inr (value, set) ↦ elim (Bool-cases (str_eq value "")) [
      | inl blank ↦
          let empty : value ≡ "" = (eq_iff value "").0 blank in
          inl (inr (rw (set, empty) refl), rw (set, blank) refl)
      | inr full ↦
          let text = eq_iff value "" in
          inr (value, set, λ e. ground (arith, text, e, full), rw (set, full) refl)
    ]
  ]

  -- The options throw for the user of the database if it is missing, then for its name; otherwise they
  -- have the values that are set, and the host, the port and the password have defaults.
  create_connection_options_outcome :
      (IsMissing "MYSQL_USER" × (create_connection_options ≡ err (error (missing "MYSQL_USER"))))
      ⊎ (IsMissing "MYSQL_DB" × (create_connection_options ≡ err (error (missing "MYSQL_DB"))))
      ⊎ ((options : TypeOrmModuleOptions) × (create_connection_options ≡ ok options)
          × (config "MYSQL_USER" ≡ some options.username)
          × (config "MYSQL_DB" ≡ some options.database)
          × (options.username ≢ "")
          × (options.database ≢ "")
          × (options.host ≡ or_default (config "MYSQL_HOST") "localhost")
          × (options.port ≡ get_number other config "MYSQL_PORT" 3306))
  unfolding create_connection_options
  create_connection_options_outcome = elim (required_outcome "MYSQL_USER") [
    | inl (gone, thrown) ↦ inl (gone, rw thrown refl)
    | inr (user, user_set, has_user, got_user) ↦ elim (required_outcome "MYSQL_DB") [
      | inl (gone, thrown) ↦ inr (inl (gone, rw (got_user, thrown) refl))
      | inr (database, database_set, has_database, got_database) ↦ inr (
          inr (
            connection_options user database,
            rw (got_user, got_database) refl,
            user_set,
            database_set,
            has_user,
            has_database,
            refl,
            refl,
          ))
    ]
  ]
