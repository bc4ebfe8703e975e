-- ===== src/Lib.antt =====
-- A model of the SensorThings API over SPARQL that src/sta serves, and of what makes it right.
--
-- The program answers requests for the eight resources of the SensorThings standard with queries to a
-- SPARQL store. Each pilot is a row of a table (src/sta/src/models.py): its name, its endpoint, its
-- graphs, and a number that records which vocabulary its data use, a bit for each question. A request
-- for a resource makes a handler (src/sta/src/sparql/query_handlers.py) from the pilot and from the
-- queries of the resource. A query may be written for some vocabularies only and says so by a marker
-- `$CODE_n$`; the handler picks the query whose code agrees with the pilot's number, or tries all of
-- them, and turns each solution into an entity.
--
-- Beside it stand the authentication by tokens of src/common/auth, a key store that discovers the keys
-- of a provider and handlers that verify the token of a request, with the commands that write keys and
-- tokens; a command that creates, fills and deletes a search index; the cache on memcached servers; the
-- settings of the project with its migrations and the start of the web application; and the supervisor
-- that keeps a service of a container running.
--
-- Files, each with the code that it models:
--   Models            src/sta/src/models.py, schemas.py, settings.py
--   Sparql/Handler    BaseQueryHandler.__init__ and DatastreamsHandler.__init__; Handler/Aliasing the
--                     list of graphs that handlers share with their pilot
--   Sparql/Codes      _extract_and_remove_codes and the comparison of bits in get_response; Markers,
--                     Choice and Choice/Bits what holds of them
--   Sparql/Filters    $filter, from _add_user_filters_to_query to _add_filter_line_to_query
--   Sparql/Queries    _get_total_count, _get_query_results and handle_sparql_exception
--   Sparql/Terms, Sparql/Transform   rdflib terms and transform_binding of the eight classes
--   Sparql/Response   get_response and _handle_results_properties; one function for each way through
--                     get_response
--   Sparql/Namespaces _bind_namespaces, the prefixes of the queries
--   CachedProperties  src/sta/src/sparql/cached_properties_handler.py
--   Pilots            src/sta/src/routers/pilots.py, and the reload after each commit of
--                     src/sta/src/main.py; Ideal what the routes promise of a finite map, and that
--                     they keep it; Reloads the reloads of requests that run at one time;
--                     Caching from the caching of a pilot to the choice of its queries
--   Sessions          get_db and get_db_manager of src/sta/src/utils.py, and the address of the
--                     database; Tracked which sessions are open
--   Routes            src/sta/src/routers/general_router.py, and the reading of query files and the bare
--                     URL of src/sta/src/utils.py; Routes/Links where the links of answers lead;
--                     Routes/Resources the dict of resources, Operations and Served what the
--                     routes find in it
--   Apps              generate_pilot_apps of src/sta/src/main.py and src/sta/src/routers/root.py;
--                     Commits the commit whose reload can raise
--   Auth/Keys         KeyStore of src/common/auth/base.py; Keys/Sound which keys it gives
--   Auth/Tokens       the getters and TokenHandler of src/common/auth/base.py, and authenticate of
--                     src/common/auth/rest_framework.py; Tokens/Claims what its claims have
--                     passed, Tokens/Users who is authenticated
--   Auth/Startup      the keys from the start, of src/common/auth/__init__.py and src/common/apps.py;
--                     Auth/Keys/Again what the store gives once more; Auth/Keys/Workers requests that
--                     share the store, each access to its cache a turn of its own
--   Auth/Requests     src/common/auth/django.py; Requests/Guard what a guarded view sees
--   Auth/Views        src/common/auth/views.py; Views/Session the requests after it
--   Auth/Commands     generate_auth_token.py, generate_auth_key.py and src/common/utils.py; Accepted,
--                     Payload and KeySets what the service makes of their output
--   IndexCommand      src/common/management/commands/_private.py; Outcomes and Quiet what its
--                     commands leave
--   Supervisor        docker/varnish/handler.py, as steps of the program, of signals and of its child;
--                     Service what it promises of the service, Invariant, Wishes and Runs what
--                     holds of its runs
--   Settings          src/main/settings.py; Settings/Groups the other groups of settings,
--                     Settings/Project what is made of them for django, Settings/Checks
--                     src/common/checks.py, Settings/Domains the allowed hosts
--   Urls              src/main/urls.py, src/common/urls.py, src/swagger/urls.py and src/manage.py
--   Migrations        src/sta/alembic/versions; Undo what their downgrades do
--   Wsgi              src/main/wsgi.py and patches.py; Order and Log what holds of them
--   Memcached         src/common/cache/pymemcached.py: Entries for its values, Servers for the client
--                     of a thread, Clients for the client of several servers, Locations for servers
--                     that the settings name
--   Text, Dict, Errors, Prelude      what the code uses of Python: texts, dicts, exceptions
--   Tests             sample data, and the theorems applied to it
--
-- State is passed on: a route is a function from the table to a reply or an exception and the table
-- after it. An exception is a value of `Error`; `try ... except` is a function on results. Loops are
-- recursion on the list they go through. The one function with fuel is the client that follows next
-- links by their texts (Sparql/Response/Paging): one page more than there are positions left is enough
-- for it; it asks for collections without a filter, which the links leave out. Where
-- a run is counted in steps (Supervisor/Runs, Auth/Keys/Workers, Pilots/Reloads/Alone) a theorem gives
-- a number that is enough.
--
-- The supervisor is a step relation: a statement, a signal between two statements, or the exit of the
-- child; Popen and the assignment of its result are one step. A token is decoded at one time: where the
-- claims of a token are asked for later, the time is still within them.
-- The cache of keys, the provider that publishes them, signed cookies and the library that decodes
-- tokens are parameters; of the cache it is assumed that it gives only what was set, though it may
-- lose entries. The search index that the command manages is a parameter. So is the SPARQL store, a
-- function from an endpoint and a query to solutions or an exception, so that what it holds does not
-- change while one request is answered. $top and $skip are naturals; negative ones are not modelled.
-- Word characters, digits and letter case are those of ASCII. `self.graphs` is the list
-- object of the pilot and stands in the model once, in the pilot.
-- Three kinds of interleaving have a model of their own, in which an event is one action of one thread:
-- requests that share the key store, requests that hold sessions of the database, and the reloads of
-- applications after commits. A commit of the table is one event there, whatever its request read.
-- In Pilots and its modules a commit stands for one whose reload makes the routes: each composite name
-- among the resources' folders has an underscore. Apps/Commits shows when this is so and what a commit
-- leaves otherwise.
-- Not modelled: logging, the web framework and the database beyond the unique column, what requests
-- at one time read of the table before they commit, the two copies of other projects' libraries under
-- modules, and the packages that only configure containers or tests.
pub mod Prelude
pub mod Text
pub mod Dict
pub mod Errors
pub mod Models
pub mod Sessions
pub mod Sparql
pub mod CachedProperties
pub mod Pilots
pub mod Routes
pub mod Apps
pub mod Auth
pub mod IndexCommand
pub mod Supervisor
pub mod Settings
pub mod Urls
pub mod Migrations
pub mod Wsgi
pub mod Memcached
pub mod Tests
