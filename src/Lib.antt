-- ===== src/Lib.antt =====
-- Verification of VaeDB, the in-memory database that answers XPath-like queries on the data of a
-- site and keeps the site's caches in MySQL and memcached.
--
-- A client opens a session on a site (server.cpp, site.cpp), asks queries whose responses the
-- session keeps by number (session.cpp, response.cpp, with util.cpp for the order of texts and
-- lru_cache.h for the queries of a site), and uses caches and locks (server.cpp over
-- mysql_proxy.cpp and memcache_proxy.cpp, each with a pool of connections). A reaper drops old
-- sessions (reaper.cpp), and messages of a bus unload sites (bus.cpp, server.cpp).
--
-- Files. Common: shared names, lists, finite maps, texts as lists of bytes, signed integers, int
-- arithmetic with overflow (Machine), and outcomes of calls (Outcome: a value, an exception, or
-- undefined behaviour). LruCache: the class of lru_cache.h, function by function; its abstract view
-- is the list of pairs from the newest to the oldest. Util: str_replace, tokenize_string,
-- merge_floats and str_compare_nat. Xml: the nodes of libxml2 that the code looks at, as a tree,
-- and in Xml/Cells as cells that pointers name. Query: query.cpp; Query.antt has what runs XPath
-- and reads its results, Resolve the constructor with permalinks, ids and the rewriting of
-- predicates, Replacing what pcre promises of its replacements and Replacing/Weights why they end;
-- Query/Samples is the small site on which tests run it. Context: context.cpp and the parts of
-- site.cpp that make and free contexts; Build the constructor and the loop of loadXmlDoc, Caches
-- getCount and getData, Associations initializeAssociation and the loops of the destructor (Owned,
-- Unshared, Maps and Dangling say what they leave), Free freeContexts. Response: query of
-- response.cpp; Response.antt has the window of a page, Filter filterMatch, Select uniqueMatch,
-- sortCallback and query, Parse the options, Build the queries on the contexts of a parent, Create
-- createInfo and, in Create/Infos, what it makes of a path, Found the way from a query through the
-- site's cache to the response, Asked the comparison of std::sort as code that asks contexts, which
-- Asked/Cached answers by context.cpp with its caches, and Views the views of the result. Session:
-- session.cpp over an interface of responses. QueryLog: ValueRep of texts (Escape), the other types
-- (Types) and the life of an entry (Entry). S3: a transfer and the copies on disk. Site: the
-- constructor, loadXmlDoc and validateSecretKey, what its maps hold (Loaded), the keys of the cache
-- of queries with their order (Keys), fetch_query (Queries) and structureFromStructureId
-- (Structures). Pool: getConnection, freeConnection and the constructor's loop, which the two
-- proxies share; Pool/Threads has the threads as a step relation, and Pool/Connect what the
-- constructors of the two make in their rounds. Storage: the statements of mysql_proxy.cpp and the
-- calls of memcache_proxy.cpp, with the laws of the servers in Storage/Laws. Json: the calls of
-- json.hpp. Server: the state (Server.antt), getSite and reloadSite (Sites), the session handlers
-- and the reaper's round (Sessions), the cache handlers (Handlers), process and the endpoints
-- (Process), and calls of getSite that interleave with each other and with reloads (Races). Bus: a
-- round of bus.cpp. Main: the settings of main.cpp and the levels of logger.h.
--
-- How code becomes definitions. An object is a record of its members, a method a function from the
-- old state to the new one; a handler that throws keeps the changes made before (Act). std::map is
-- an association list. int is checked for overflow where the program computes with user input (none
-- is undefined behaviour), unsigned long wraps around. Loops are recursion on a list, or on fuel:
-- the length of the text for str_replace and the tokens, the length of the list for the eviction of
-- the cache, with theorems that the fuel is enough; the replacement of the query log, which may not
-- end, and the rewriting of predicates, which ends since each replacement lowers a weight of the
-- text, on any number of rounds. The values of rand are a list.
--
-- Parameters. Libraries and servers are records: Doubles (lexical_cast and comparison of doubles),
-- Floats (float division, exact below 2 ^ 24), JsonLibrary, ResponseClass, Loader (libxml2's
-- parser, boost::split, strtol, what read_s3 returns), Contexts and Algorithms (the contexts of a
-- response, which Response/Asked/Cached.antt makes of those of a site; std::sort, random_shuffle),
-- Texts and Patterns (atoi, boost::split and join, pcre), Source (the maps and nodes that a query
-- reads, with libxml2's evaluation of XPath), LibXml (the calls that change the document),
-- Invocation (the command line and the environment), Driver (the connector of MySQL), Database and
-- Memcached. What is relied on from them is their fields with a law or the records MysqlLaws,
-- MemcachedLaws, PcreLaws (a replacement puts the rewrite with its groups in the place of a match)
-- and KeepsChild (what libxml2 leaves alone of a node). The collation of MySQL is a parameter too.
--
-- Not modelled: the listener of server.cpp and its pid file, the crash handler of main.cpp, the
-- output of logger.cpp, what malloc does when memory is short, and the headers json.hpp and
-- zmq.hpp, which are copies of other projects' libraries. While the contexts are built the document
-- is a tree, and while associations are initialized it is a heap of cells; that the heap is the one
-- of that tree is not stated. The queries of one response read the site's cache of queries in the
-- state before the response. Handlers run one at a time, except for the pool of connections and the
-- calls of getSite, whose threads interleave.
pub mod Common
pub mod LruCache
pub mod Pool
pub mod Util
pub mod Xml
pub mod Query
pub mod Bus
pub mod Main
pub mod Context
pub mod QueryLog
pub mod Response
pub mod Json
pub mod S3
pub mod Server
pub mod Session
pub mod Site
pub mod Storage
