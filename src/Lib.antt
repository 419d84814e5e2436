-- ===== src/Lib.antt =====
-- bulq: the core of the group-buying server in backend/app.
--
-- A run is a shopping trip of a group. Its leader plans it; members place bids on products, by which
-- it becomes active; the leader confirms it, goes shopping from a list made of the bids, and, where
-- what was bought is not what was asked for, the bids are adjusted; then the items are distributed,
-- and the run is completed. Requests reach `RunService` and its neighbours, which check who asks,
-- ask the state machine, and write through repositories to one shared storage.
--
-- The files and the code that they model:
--   Common, Common/*                      helpers: tests on numbers, Python's list idioms, integers
--   RunState, RunState/*                  backend/app/core/run_state.py: the states, the table of
--                                         transitions as a relation, and the tests `can_...`
--   Error                                 backend/app/core/exceptions.py, error_codes.py
--   Model                                 the rows of backend/app/core/models.py, the events of
--                                         backend/app/events/domain_events.py, and the storage of
--                                         backend/app/repositories/memory/storage.py
--   Table, Table/Find                     a dict from id to row, as the list of its rows
--   Storage, Storage/Rules                a method as an action on the storage that returns or
--                                         raises, and rules for what an action leaves as it was
--   Repo/*                                backend/app/repositories/memory/*.py, method by method
--   Repo/Bids/Rows, Repo/Bids/Lookup      the bids as a map from participation and product
--   Access, Access/*                      the checks that the services repeat: the run exists, the
--                                         user is a member, the user leads it
--   RunStateService/*                     backend/app/services/run_state_service.py
--   BidService/*                          backend/app/services/bid_service.py
--   DistributionService                   backend/app/services/distribution_service.py
--   ReassignmentService/*                 backend/app/services/reassignment_service.py
--   ShoppingService/*                     backend/app/services/shopping_service.py
--   GroupService/*                        backend/app/services/group_service.py, with the roles of
--                                         users in groups as its clients see them
--   AdminService, AdminService/*          backend/app/services/admin_service.py: merging and deletion of
--                                         products and stores
--   NotificationService/*                 backend/app/services/notification_service.py: what is unread
--   RunMethods, RunMethods/*              backend/app/services/run_service.py: creation, comments and
--                                         helpers of runs
--   RunService                            the requests on runs together: the delegating methods of
--                                         backend/app/services/run_service.py and the routes beside
--   Frame/*, Lifecycle/*, RunService/*    which parts of the storage each method leaves, how it
--                                         moves runs, and for whom
--   Tests, Tests/*                        a small storage, tests and examples
--
-- A method keeps its name in the source, less a leading underscore; a branch that the model names
-- on its own says in a comment which part of the method it is.
--
-- What is taken as given: an id is a number and `uuid4` an arbitrary sequence of numbers, of which a
-- property asks that they be new where it needs that. A DECIMAL(10, 2) is the integer number of its
-- hundredths, so that sums and comparisons are exact; quantities that a float carries are taken to
-- be such. The share `round(float(bid.quantity * ratio), 2)` and the price
-- `new_total / new_quantity` go through binary floating point: both are taken from the parameter
-- `scaled`, which stands for `q * p / t` as it is stored. MAX_PRODUCTS_PER_RUN,
-- MAX_ACTIVE_RUNS_PER_GROUP, MAX_GROUPS_PER_USER and MAX_MEMBERS_PER_GROUP are parameters, since they
-- are configuration. What a method wrote before it raised stays written, as with the in-memory
-- repositories. All loops are over lists, so that no fuel is needed. `serve` runs the requests on
-- existing runs, and `serve_requests` these and the requests on groups; the creation of runs and an
-- administrator's merging are treated one at a time. A sum of two numbers of hundredths that goes
-- through floats is stored as the exact one.
--
-- Not modelled: the rest of AdminService, the services of products and stores, the pages of
-- notifications, responses that are only assembled, logging and the broadcasts, and the database
-- repositories, which are queries of a third-party library.
pub mod Common
pub mod RunState
pub mod Error
pub mod Model
pub mod Table
pub mod Storage
pub mod Repo
pub mod Access
pub mod Frame
pub mod Lifecycle
pub mod RunStateService
pub mod BidService
pub mod DistributionService
pub mod ReassignmentService
pub mod ShoppingService
pub mod GroupService
pub mod AdminService
pub mod NotificationService
pub mod RunMethods
pub mod RunService
pub mod Tests
